-- ===== src/Storage/Lru/Refines.antt =====
-- SET of src/storage.cpp against the contract of the cache.
use redon.Prelude.{
  ◌≤◌, ◌<◌, ◌≡◌, refl, ap, sym, ◌∙◌, true, false, Bytes, List, ◌∷◌, none, some, arith, ◌==◌,
  if◌then◌else◌, length, Bool-cases, Option-cases, inl, inr, take_of_length-le,
}
use redon.Storage.{
  Node, Storage, log_set, replicate_set, evict_loop, set_existing, insert_front, set_new,
  set_logged, set_memory, set, over_capacity,
}
use redon.Storage.Nodes.{find_node, erase_key, find_node-key, erase_key_absent, length-erase_key}
use redon.Storage.Linked.{IsLinked-insert}
use redon.Storage.Valid.{
  IsValid, SameCache, SameCache-IsValid, SameCache-log_set, SameCache-replicate_set, splice_set,
  index_hit, index_miss,
}
use redon.Storage.Lru.{
  entries, touch, keep, wal_ok, entries-erase_key, length-entries, entries-take,
}
use redon.Storage.Lru.Evict.{live_test, evict_loop-take, evict_loop_off}

-- What a store that is not replaying a log keeps of a list of entries.
abbrev pub trim : Storage → List (Bytes × Bytes) → List (Bytes × Bytes)
trim s l = if s.replaying then l else keep s.capacity l

-- A live bounded cache is within its capacity.
abbrev pub IsBounded : Storage → Type 0
IsBounded s = s.replaying ≡ false → 0 < s.capacity → length s.items ≤ s.capacity

abbrev pub view : Storage → List (Bytes × Bytes)
view s = entries s.items

trim_within :
    (s : Storage) (l : List (Bytes × Bytes))
    → (s.replaying ≡ false → 0 < s.capacity → length l ≤ s.capacity)
    → trim s l ≡ l
trim_within s l h = elim (Bool-cases s.replaying) [
  | inl e ↦ ground arith
  | inr e ↦ elim (Bool-cases (s.capacity == 0)) [
    | inl z ↦ ground arith
    | inr pos ↦ ground (arith, take_of_length-le s.capacity l (h e (ground arith)))
  ]
]

pub loop_view :
    (s : Storage)
    → IsValid s
    → wal_ok (evict_loop live_test true (length s.index) s).wal ≡ true
    → view (evict_loop live_test true (length s.index) s) ≡ trim s (view s)
loop_view s h good = elim (Bool-cases s.replaying) [
  | inl e ↦ ap view (evict_loop_off (length s.index) s (ground arith)) ∙ ground arith
  | inr e ↦ elim (Bool-cases (s.capacity == 0)) [
    | inl z ↦
        ap view (evict_loop_off (length s.index) s (unfold over_capacity in ground arith))
        ∙ ground arith
    | inr pos ↦
        ap entries (evict_loop-take (length s.index) s h e (ground arith) (omega arith) good)
        ∙ entries-take s.capacity s.items
        ∙ ground arith
  ]
]

module _ (key value : Bytes) (s : Storage) (h : IsValid s) where
  pub existing_view :
      (n : Node)
      → find_node key s.items ≡ some n
      → view (set_existing key value n.id s) ≡ touch key value (view s)
  unfolding set_existing
  existing_view n e =
      ap entries ((SameCache-replicate_set key value _).items ∙ splice_set s h key n e value)
      ∙ (unfold entries in rw (find_node-key key s.items n e, entries-erase_key) refl)

  existing_within :
      (n : Node)
      → find_node key s.items ≡ some n
      → IsBounded s
      → trim s (touch key value (view s)) ≡ touch key value (view s)
  existing_within n e bounded = trim_within s (touch key value (view s)) (λ live pos. omega (
    arith,
    ap length (entries-erase_key key s.items),
    length-entries (erase_key key s.items),
    length-erase_key key s.items n h.keys e,
    bounded live pos,
  ))

  pub inserted_view :
      find_node key s.items ≡ none
      → view (replicate_set key value (insert_front key value s)) ≡ touch key value (view s)
  unfolding insert_front
  inserted_view e =
      ap entries (SameCache-replicate_set key value (insert_front key value s)).items
      ∙ (unfold entries in
          ap (λ l. (key, value) ∷ l)
            (sym (ap entries (erase_key_absent key s.items e)) ∙ entries-erase_key key s.items))

  pub inserted-IsValid :
      find_node key s.items ≡ none → IsValid (replicate_set key value (insert_front key value s))
  unfolding insert_front
  inserted-IsValid e =
      SameCache-IsValid (insert_front key value s) _
        (SameCache-replicate_set key value (insert_front key value s))
        (IsLinked-insert s.items s.next_id s.index h key value e)

  new_view :
      find_node key s.items ≡ none
      → wal_ok (set_new key value s).wal ≡ true
      → view (set_new key value s) ≡ trim s (touch key value (view s))
  unfolding set_new insert_front
  new_view e good =
      let front = insert_front key value s in
      let t = replicate_set key value front in
      let same = SameCache-replicate_set key value front in
      loop_view t (inserted-IsValid e) good
      ∙ ground (arith, same.capacity, same.replaying, inserted_view e)

  logged_view :
      IsBounded s
      → wal_ok (set_logged key value s).wal ≡ true
      → view (set_logged key value s) ≡ trim s (touch key value (view s))
  unfolding set_logged
  logged_view bounded = elim (Option-cases (find_node key s.items)) [
    | inl e ↦ rw (index_miss s key h e, set_logged) (new_view e)
    | inr (n, e) ↦
        rw (index_hit s h key n e, set_logged)
          (λ good. existing_view n e ∙ sym (existing_within n e bounded))
  ]

trim_same : (s t : Storage) (l : List (Bytes × Bytes)) → SameCache s t → trim t l ≡ trim s l
trim_same s t l e = rw (e.replaying, e.capacity)

pub set_in_memory :
    (key value : Bytes) (s : Storage) → s.disk ≡ none → set key value s ≡ set_memory key value s
unfolding set
set_in_memory key value s e = ground arith

memory_true :
    (key value : Bytes) (s : Storage)
    → (set_memory key value s).1 ≡ true
    → set_memory key value s ≡ (set_logged key value (log_set key value s).0, true)
unfolding set_memory
memory_true key value s h = ground arith

-- In memory, a SET that succeeds makes its entry the most recently used and keeps of the others what
-- the capacity leaves room for, least recently used first to go. It needs a store that is valid and
-- within its capacity, and that no write of the log has failed; while a log is replayed nothing is
-- evicted.
pub set-touch :
    (key value : Bytes) (s : Storage)
    → IsValid s
    → IsBounded s
    → s.disk ≡ none
    → (set key value s).1 ≡ true
    → wal_ok (set key value s).0.wal ≡ true
    → view (set key value s).0 ≡ trim s (touch key value (view s))
set-touch key value s h bounded memory done good =
    let t = (log_set key value s).0 in
    let same = SameCache-log_set key value s in
    let ran : set key value s ≡ (set_logged key value t, true) =
      set_in_memory key value s memory
      ∙ memory_true key value s (sym (ap (λ r. r.1) (set_in_memory key value s memory)) ∙ done) in
    ap (λ r. view r.0) ran
    ∙ logged_view key value t (SameCache-IsValid s t same h)
        (λ live pos. omega (
          arith,
          ap length same.items,
          same.capacity,
          bounded (sym same.replaying ∙ live) (omega (arith, same.capacity)),
        ))
        (sym (ap (λ r. wal_ok r.0.wal) ran) ∙ good)
    ∙ trim_same s t (touch key value (view t)) same
    ∙ ap (λ l. trim s (touch key value (entries l))) same.items
