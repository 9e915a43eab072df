-- ===== src/Storage/Valid.antt =====
-- The invariant of the cache of src/storage.cpp.
use redon.Prelude.{
  ℕ, zero, suc, ◌≡◌, ap, ◌∙◌, Bool, true, false, Bytes, ◌∷◌, none, some, arith, Option-cases,
  Bool-cases, inl, inr,
}
use redon.Assoc.{find, erase}
use redon.Storage.{
  Node, Storage, set_value, erase_node, splice_front, back, pop_back, log_set, log_del,
  replicate_set, replicate_del, drop_back, evict_lru_locked, evict_loop,
}
use redon.Storage.Nodes.{
  find_node, erase_key, node_at_key, erase_node_key, node_at-set_value, erase_node-set_value,
  pop_back-erase_key,
}
use redon.Storage.Linked.{IsLinked, id_of, IsLinked-erase}

abbrev pub IsValid : Storage → Type 0
IsValid s = IsLinked s.items s.next_id s.index

-- What the log and the replication leave alone.
pub record SameCache (s t : Storage) : Type 0 where
  pub items : t.items ≡ s.items
  pub next_id : t.next_id ≡ s.next_id
  pub index : t.index ≡ s.index
  pub capacity : t.capacity ≡ s.capacity
  pub replaying : t.replaying ≡ s.replaying

pub SameCache-IsValid : (s t : Storage) → SameCache s t → IsValid s → IsValid t
SameCache-IsValid s t e h = rw (e.items, e.next_id, e.index) h

pub SameCache-log_set : (k v : Bytes) (s : Storage) → SameCache s (log_set k v s).0
unfolding log_set
SameCache-log_set k v s = ground arith

pub SameCache-log_del : (k : Bytes) (s : Storage) → SameCache s (log_del k s).0
unfolding log_del
SameCache-log_del k s = ground arith

pub SameCache-replicate_set : (k v : Bytes) (s : Storage) → SameCache s (replicate_set k v s)
unfolding replicate_set
SameCache-replicate_set k v s = ground arith

pub SameCache-replicate_del : (k : Bytes) (s : Storage) → SameCache s (replicate_del k s)
unfolding replicate_del
SameCache-replicate_del k s = ground arith

-- An eviction takes the last node out of the list and its key out of the index.
pub record Dropped (n : Node) (s t : Storage) : Type 0 where
  pub items : t.items ≡ pop_back s.items
  pub next_id : t.next_id ≡ s.next_id
  pub index : t.index ≡ erase n.key s.index
  pub capacity : t.capacity ≡ s.capacity
  pub replaying : t.replaying ≡ s.replaying

pub evict_true :
    (log : Bool) (s : Storage)
    → (evict_lru_locked log s).1 ≡ true
    → (n : Node) × (back s.items ≡ some n) × Dropped n s (evict_lru_locked log s).0
evict_true log s h = elim (Option-cases (back s.items)) [
  | inl e ↦ absurd (unfold evict_lru_locked in ground arith)
  | inr (n, e) ↦ (n, e, unfold evict_lru_locked drop_back log_del replicate_del in ground arith)
]

pub evict_false :
    (log : Bool) (s : Storage)
    → (evict_lru_locked log s).1 ≡ false
    → SameCache s (evict_lru_locked log s).0
unfolding evict_lru_locked log_del
evict_false log s h = ground arith

Dropped-IsValid :
    (n : Node) (s t : Storage) → IsValid s → back s.items ≡ some n → Dropped n s t → IsValid t
Dropped-IsValid n s t h e d =
    let (found, erased) = pop_back-erase_key s.items n h.keys e in
    rw (d.items, d.next_id, d.index, erased)
      (IsLinked-erase s.items s.next_id s.index h n.key n found)

pub evict-IsValid : (log : Bool) (s : Storage) → IsValid s → IsValid (evict_lru_locked log s).0
evict-IsValid log s h = elim (Bool-cases (evict_lru_locked log s).1) [
  | inl e ↦ let (n, last, d) = evict_true log s e in Dropped-IsValid n s _ h last d
  | inr e ↦ SameCache-IsValid s _ (evict_false log s e) h
]

pub evict_loop-IsValid :
    (test : Storage → Bool) (log : Bool) (fuel : ℕ) (s : Storage)
    → IsValid s
    → IsValid (evict_loop test log fuel s)
unfolding evict_loop
evict_loop-IsValid test log zero s h = h
evict_loop-IsValid test log (suc fuel) s h = elim (Bool-cases (test s)) [
  | inl e ↦ elim (Bool-cases (evict_lru_locked log s).1) [
    | inl e' ↦ rw (e, e') (evict_loop-IsValid test log fuel _ (evict-IsValid log s h))
    | inr e' ↦ rw (e, e') (evict-IsValid log s h)
  ]
  | inr e ↦ rw e h
]

module _ (s : Storage) (h : IsValid s) (k : Bytes) (n : Node)
    (e : find_node k s.items ≡ some n) where
  -- On a hit the iterators lead where the key does.
  pub splice_set :
      (v : Bytes)
      → splice_front n.id (set_value n.id v s.items) ≡ record n { value = v } ∷ erase_key k s.items
  unfolding splice_front
  splice_set v = ground (
    arith,
    node_at-set_value n.id v s.items n,
    node_at_key k s.items n h.ids e,
    erase_node-set_value n.id v s.items,
    erase_node_key k s.items n h.ids h.keys e,
  )

  pub splice_hit : splice_front n.id s.items ≡ n ∷ erase_key k s.items
  unfolding splice_front
  splice_hit =
      ground (arith, node_at_key k s.items n h.ids e, erase_node_key k s.items n h.ids h.keys e)

  pub erase_hit : erase_node n.id s.items ≡ erase_key k s.items
  erase_hit = erase_node_key k s.items n h.ids h.keys e

  pub index_hit : find k s.index ≡ some n.id
  index_hit = h.linked k ∙ ap id_of e

pub index_miss :
    (s : Storage) (k : Bytes) → IsValid s → find_node k s.items ≡ none → find k s.index ≡ none
index_miss s k h e = h.linked k ∙ ap id_of e
