-- ===== src/Storage/Nodes.antt =====
-- The list of nodes, by address and by key.
use redon.Prelude.{
  ℕ, suc, ◌<◌, ◌≡◌, refl, Bytes, List, [], ◌∷◌, Option, none, some, arith, bytes_eq, bytes_eq_iff,
  if◌then◌else◌, length, All,
}
use redon.Storage.{Node, node_at, set_value, erase_node, back, pop_back}

unfoldable pub find_node : Bytes → List Node → Option Node
find_node k [] = none
find_node k (n ∷ l) = if bytes_eq n.key k then some n else find_node k l

unfoldable pub erase_key : Bytes → List Node → List Node
erase_key k [] = []
erase_key k (n ∷ l) = let rest = erase_key k l in if bytes_eq n.key k then rest else n ∷ rest

abbrev pub DistinctKeys : List Node → Type 0
DistinctKeys [] = Unit
DistinctKeys (n ∷ l) = (find_node n.key l ≡ none) × DistinctKeys l

abbrev pub DistinctIds : List Node → Type 0
DistinctIds [] = Unit
DistinctIds (n ∷ l) = (node_at n.id l ≡ none) × DistinctIds l

pub find_node-key : (k : Bytes) (l : List Node) (n : Node) → find_node k l ≡ some n → n.key ≡ k
unfolding find_node
find_node-key k [] n h = cc
find_node-key k (m ∷ l) n h = ground (arith, bytes_eq_iff m.key k, find_node-key k l n)

pub find_node-erase_key :
    (k j : Bytes) (l : List Node)
    → find_node j (erase_key k l) ≡ (if bytes_eq k j then none else find_node j l)
unfolding find_node erase_key
find_node-erase_key k j [] = ground arith
find_node-erase_key k j (m ∷ l) =
    ground (
      arith,
      bytes_eq_iff m.key k,
      bytes_eq_iff m.key j,
      bytes_eq_iff k j,
      find_node-erase_key k j l,
    )

pub erase_key_absent : (k : Bytes) (l : List Node) → find_node k l ≡ none → erase_key k l ≡ l
unfolding find_node erase_key
erase_key_absent k [] h = refl
erase_key_absent k (m ∷ l) h = ground (arith, erase_key_absent k l)

pub length-erase_key :
    (k : Bytes) (l : List Node) (n : Node)
    → DistinctKeys l
    → find_node k l ≡ some n
    → suc (length (erase_key k l)) ≡ length l
unfolding find_node erase_key
length-erase_key k [] n d h = cc
length-erase_key k (m ∷ l) n d h =
    ground (arith, bytes_eq_iff m.key k, erase_key_absent k l, length-erase_key k l n d.1)

pub DistinctKeys-erase_key :
    (k : Bytes) (l : List Node) → DistinctKeys l → DistinctKeys (erase_key k l)
unfolding erase_key
DistinctKeys-erase_key k [] d = tt
DistinctKeys-erase_key k (m ∷ l) d =
    ground (arith, DistinctKeys-erase_key k l d.1, find_node-erase_key k m.key l)

pub node_at-erase_key :
    (k : Bytes) (id : ℕ) (l : List Node) → node_at id l ≡ none → node_at id (erase_key k l) ≡ none
unfolding node_at erase_key
node_at-erase_key k id [] h = refl
node_at-erase_key k id (m ∷ l) h = ground (arith, node_at-erase_key k id l)

pub DistinctIds-erase_key :
    (k : Bytes) (l : List Node) → DistinctIds l → DistinctIds (erase_key k l)
unfolding erase_key
DistinctIds-erase_key k [] d = tt
DistinctIds-erase_key k (m ∷ l) d =
    ground (arith, DistinctIds-erase_key k l d.1, node_at-erase_key k m.id l d.0)

pub All-erase_key :
    (b : ℕ) (k : Bytes) (l : List Node)
    → All (λ n. n.id < b) l
    → All (λ n. n.id < b) (erase_key k l)
unfolding erase_key
All-erase_key b k [] h = tt
All-erase_key b k (m ∷ l) h = ground (arith, All-erase_key b k l h.1)

node_at_absent : (id : ℕ) (l : List Node) → node_at id l ≡ none → erase_node id l ≡ l
unfolding node_at erase_node
node_at_absent id [] h = refl
node_at_absent id (m ∷ l) h = ground (arith, node_at_absent id l)

-- Under distinct keys and addresses, the node that a key names is the node at its address,
pub node_at_key :
    (k : Bytes) (l : List Node) (n : Node)
    → DistinctIds l
    → find_node k l ≡ some n
    → node_at n.id l ≡ some n
unfolding find_node node_at
node_at_key k [] n d h = cc
node_at_key k (m ∷ l) n d h = ground (arith, node_at_key k l n d.1)

-- and to erase it by its address is to erase it by its key.
pub erase_node_key :
    (k : Bytes) (l : List Node) (n : Node)
    → DistinctIds l
    → DistinctKeys l
    → find_node k l ≡ some n
    → erase_node n.id l ≡ erase_key k l
unfolding find_node erase_node erase_key
erase_node_key k [] n d u h = cc
erase_node_key k (m ∷ l) n d u h = ground (
  arith,
  bytes_eq_iff m.key k,
  node_at_key k l n d.1,
  erase_key_absent k l,
  erase_node_key k l n d.1 u.1,
)

pub node_at-set_value :
    (id : ℕ) (v : Bytes) (l : List Node) (n : Node)
    → node_at id l ≡ some n
    → node_at id (set_value id v l) ≡ some (record n { value = v })
unfolding node_at set_value
node_at-set_value id v [] n h = cc
node_at-set_value id v (m ∷ l) n h = ground (arith, node_at-set_value id v l n)

pub erase_node-set_value :
    (id : ℕ) (v : Bytes) (l : List Node) → erase_node id (set_value id v l) ≡ erase_node id l
unfolding erase_node set_value
erase_node-set_value id v [] = refl
erase_node-set_value id v (m ∷ l) = ground (arith, erase_node-set_value id v l)

-- The last node is the only one with its key.
pub pop_back-erase_key :
    (l : List Node) (n : Node)
    → DistinctKeys l
    → back l ≡ some n
    → (find_node n.key l ≡ some n) × (pop_back l ≡ erase_key n.key l)
unfolding back pop_back find_node erase_key
pop_back-erase_key [] n d h = cc
pop_back-erase_key (m ∷ []) n d h = ground (arith, bytes_eq_iff m.key m.key)
pop_back-erase_key (m ∷ m' ∷ l) n d h =
    ground (arith, bytes_eq_iff m.key n.key, pop_back-erase_key (m' ∷ l) n d.1)

pub back-cons : (m : Node) (l : List Node) → (n : Node) × (back (m ∷ l) ≡ some n)
unfolding back
back-cons m [] = (m, refl)
back-cons m (m' ∷ l) = back-cons m' l
