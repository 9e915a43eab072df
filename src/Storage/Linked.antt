-- ===== src/Storage/Linked.antt =====
-- The list and the index of the cache of src/storage.cpp, and how they belong together.
use redon.Prelude.{
  ℕ, ◌+◌, ◌≤◌, ◌<◌, ◌≡◌, refl, ap, ◌∙◌, Bytes, List, [], ◌∷◌, Option, none, some, arith,
  bytes_eq_iff, length, All,
}
use redon.Assoc.{
  find, assign, erase, Distinct, find-assign, find-erase, Distinct-assign, Distinct-erase,
  length-assign_new, length-erase,
}
use redon.Storage.{Node, node_at}
use redon.Storage.Nodes.{
  find_node, erase_key, DistinctKeys, DistinctIds, find_node-key, find_node-erase_key,
  length-erase_key, DistinctKeys-erase_key, node_at-erase_key, DistinctIds-erase_key, All-erase_key,
  node_at_key,
}

abbrev pub id_of : Option Node → Option ℕ
id_of none = none
id_of (some n) = some n.id

pub record IsLinked (items : List Node) (next_id : ℕ) (index : List (Bytes × ℕ)) : Type 0 where
  pub keys : DistinctKeys items
  pub ids : DistinctIds items
  pub fresh : All (λ n. n.id < next_id) items
  pub linked : (k : Bytes) → find k index ≡ id_of (find_node k items)
  pub index_keys : Distinct index
  pub sizes : length index ≡ length items

All-fresh_mono : (a b : ℕ) (l : List Node) → a ≤ b → All (λ n. n.id < a) l → All (λ n. n.id < b) l
All-fresh_mono a b [] le h = tt
All-fresh_mono a b (m ∷ l) le h = (omega arith, All-fresh_mono a b l le h.1)

node_at_fresh : (a : ℕ) (l : List Node) → All (λ n. n.id < a) l → node_at a l ≡ none
unfolding node_at
node_at_fresh a [] h = refl
node_at_fresh a (m ∷ l) h = ground (arith, node_at_fresh a l)

fresh_at :
    (a id : ℕ) (l : List Node) (n : Node) → All (λ m. m.id < a) l → node_at id l ≡ some n → n.id < a
unfolding node_at
fresh_at a id [] n h e = cc
fresh_at a id (m ∷ l) n h e = ground (arith, fresh_at a id l n h.1)

node_at_erased :
    (k : Bytes) (l : List Node) (n : Node)
    → DistinctIds l
    → DistinctKeys l
    → find_node k l ≡ some n
    → node_at n.id (erase_key k l) ≡ none
unfolding find_node erase_key node_at
node_at_erased k [] n d u h = cc
node_at_erased k (m ∷ l) n d u h = ground (
  arith,
  bytes_eq_iff m.key k,
  node_at_key k l n d.1,
  node_at-erase_key k m.id l,
  node_at_erased k l n d.1 u.1,
)

module _ (items : List Node) (next_id : ℕ) (index : List (Bytes × ℕ))
    (h : IsLinked items next_id index) where
  -- A node moved to the front, with any value.
  pub IsLinked-touch :
      (k v : Bytes) (n : Node)
      → find_node k items ≡ some n
      → IsLinked (record n { value = v } ∷ erase_key k items) next_id index
  IsLinked-touch k v n e = record {
    keys = (same, DistinctKeys-erase_key k items h.keys);
    ids = (node_at_erased k items n h.ids h.keys e, DistinctIds-erase_key k items h.ids);
    fresh = (
      fresh_at next_id n.id items n h.fresh (node_at_key k items n h.ids e),
      All-erase_key next_id k items h.fresh,
    );
    linked = λ j. h.linked j ∙ here j;
    index_keys = h.index_keys;
    sizes = omega (arith, h.sizes, length-erase_key k items n h.keys e);
  }
    where
      named : n.key ≡ k
      named = find_node-key k items n e

      same : find_node n.key (erase_key k items) ≡ none
      same = ground (arith, named, find_node-erase_key k n.key items, bytes_eq_iff k n.key)

      here :
          (j : Bytes)
          → id_of (find_node j items)
            ≡ id_of (find_node j (record n { value = v } ∷ erase_key k items))
      here j =
          unfold find_node in
          ground
            (arith, e, named, find_node-erase_key k j items, bytes_eq_iff n.key j, bytes_eq_iff k j)

  -- A new node at the front.
  pub IsLinked-insert :
      (k v : Bytes)
      → find_node k items ≡ none
      → IsLinked
          (record { id = next_id; key = k; value = v } ∷ items)
          (next_id + 1)
          (assign k next_id index)
  IsLinked-insert k v e = record {
    keys = (e, h.keys);
    ids = (node_at_fresh next_id items h.fresh, h.ids);
    fresh = (omega arith, All-fresh_mono next_id (next_id + 1) items (omega arith) h.fresh);
    linked = λ j. unfold find_node in ground (arith, find-assign k j next_id index, h.linked j);
    index_keys = Distinct-assign k next_id index h.index_keys;
    sizes = omega (arith, h.sizes, length-assign_new k next_id index (h.linked k ∙ ap id_of e));
  }

  pub IsLinked-erase :
      (k : Bytes) (n : Node)
      → find_node k items ≡ some n
      → IsLinked (erase_key k items) next_id (erase k index)
  IsLinked-erase k n e = record {
    keys = DistinctKeys-erase_key k items h.keys;
    ids = DistinctIds-erase_key k items h.ids;
    fresh = All-erase_key next_id k items h.fresh;
    linked = λ j. ground (arith, find-erase k j index, find_node-erase_key k j items, h.linked j);
    index_keys = Distinct-erase k index h.index_keys;
    sizes = omega (
      arith,
      h.sizes,
      length-erase_key k items n h.keys e,
      length-erase k n.id index h.index_keys (h.linked k ∙ ap id_of e),
    );
  }
