-- ===== src/Storage/Alone.antt =====
-- The store of src/storage.cpp without a log or a disk engine.
use redon.Prelude.{
  ℕ, zero, suc, ◌≡◌, Bool, true, Bytes, none, arith, Option-cases, Bool-cases, inl, inr,
}
use redon.Assoc.{find}
use redon.Storage.{
  Storage, log_set, log_del, replicate_set, replicate_del, drop_back, evict_lru_locked, evict_loop,
  set_existing, insert_front, set_new, set_logged, set_memory, set, get_memory, get, del_memory,
  del,
}

-- The parts of a store that say how it runs.
pub record Alone (capacity : ℕ) (replaying : Bool) (s : Storage) : Type 0 where
  pub disk : s.disk ≡ none
  pub wal : s.wal ≡ none
  pub mode : s.replaying ≡ replaying
  pub bound : s.capacity ≡ capacity

module _ (m : ℕ) (b : Bool) where
  pub Alone-evict : (log : Bool) (s : Storage) → Alone m b s → Alone m b (evict_lru_locked log s).0
  unfolding evict_lru_locked log_del drop_back replicate_del
  Alone-evict log s h = ground arith

  pub Alone-evict_loop :
      (test : Storage → Bool) (log : Bool) (fuel : ℕ) (s : Storage)
      → Alone m b s
      → Alone m b (evict_loop test log fuel s)
  unfolding evict_loop
  Alone-evict_loop test log zero s h = h
  Alone-evict_loop test log (suc fuel) s h =
      let one = Alone-evict log s h in
      let rest = Alone-evict_loop test log fuel (evict_lru_locked log s).0 one in
      elim (Bool-cases (test s)) [
        | inl e ↦ elim (Bool-cases (evict_lru_locked log s).1) [
          | inl e' ↦ rw (e, e') rest
          | inr e' ↦ rw (e, e') one
        ]
        | inr e ↦ rw e h
      ]

  pub Alone-insert :
      (k v : Bytes) (s : Storage) → Alone m b s → Alone m b (replicate_set k v (insert_front k v s))
  unfolding insert_front replicate_set
  Alone-insert k v s h = ground arith

  pub Alone-set_logged : (k v : Bytes) (s : Storage) → Alone m b s → Alone m b (set_logged k v s)
  unfolding set_logged
  Alone-set_logged k v s h = elim (Option-cases (find k s.index)) [
    | inl e ↦
        rw (e, set_logged) (unfold set_new in Alone-evict_loop _ true _ _ (Alone-insert k v s h))
    | inr (n, e) ↦ rw (e, set_logged) (unfold set_existing replicate_set in ground arith)
  ]

  pub log_set-Alone : (k v : Bytes) (s : Storage) → Alone m b s → log_set k v s ≡ (s, true)
  unfolding log_set
  log_set-Alone k v s h = ground arith

  pub set-Alone : (k v : Bytes) (s : Storage) → Alone m b s → set k v s ≡ (set_logged k v s, true)
  unfolding set set_memory
  set-Alone k v s h = ground (arith, log_set-Alone k v s h)

  pub Alone-get : (k : Bytes) (s : Storage) → Alone m b s → Alone m b (get k s).0
  unfolding get get_memory
  Alone-get k s h = ground arith

  pub Alone-del : (k : Bytes) (s : Storage) → Alone m b s → Alone m b (del k s).0
  unfolding del del_memory log_del replicate_del
  Alone-del k s h = ground arith

  pub log_del-Alone : (k : Bytes) (s : Storage) → Alone m b s → (log_del k s).1 ≡ true
  unfolding log_del
  log_del-Alone k s h = ground arith
