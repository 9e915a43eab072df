-- ===== src/Storage/Journal/Commands.antt =====
-- The commands of src/storage.cpp over a log.
use mathlib.Core.Path.{subst}
use redon.Prelude.{
  ℕ, ◌≡◌, ap, ◌∙◌, true, false, not, ◌&&◌, Bytes, none, some, arith, if◌then◌else◌, Bool-cases,
  Option-cases, inl, inr,
}
use redon.Assoc.{find, erase, find-erase}
use redon.Wal.{LogRecord}
use redon.Wal.Format.{IsRecord}
use redon.Storage.{
  Node, Storage, log_set, log_del, replicate_set, replicate_del, set_existing, insert_front,
  set_new, set_logged, set_memory, set, get_memory, get, del_memory, del, over_capacity,
}
use redon.Storage.Nodes.{find_node}
use redon.Storage.Valid.{IsValid, SameCache-IsValid, SameCache-log_set, index_miss, index_hit}
use redon.Storage.Unbounded.{find-touch, find-used}
use redon.Storage.Lru.{touch, entries, find-entries, value_of}
use redon.Storage.Lru.Refines.{view, existing_view, inserted_view, inserted-IsValid, set_in_memory}
use redon.Storage.Lru.Reads.{get-used, del_in_memory, del_memory-miss, del_logged, del-Deleted}
use redon.Storage.Keeps.{set_existing-IsValid, get-IsValid, del-IsValid}
use redon.Storage.Journal.{
  IsJournal, Logged, log_set-Logged, log_del-Logged, same-IsJournal, Logged-IsJournal,
  evict_loop-IsJournal, disk-log_set,
}

module _ (key value : Bytes) (s : Storage) (h : IsJournal s)
    (is : IsRecord (LogRecord.set key value)) where
  abbrev logged_store : Storage
  logged_store = (log_set key value s).0

  logged-IsValid : IsValid logged_store
  logged-IsValid = SameCache-IsValid s logged_store (SameCache-log_set key value s) h.valid

  logged_view : view logged_store ≡ view s
  logged_view = ap entries (SameCache-log_set key value s).items

  -- The store behind the log has the record's change in its map.
  put-IsJournal :
      (t : Storage)
      → (log_set key value s).1 ≡ true
      → IsValid t
      → t.disk ≡ logged_store.disk
      → t.wal ≡ logged_store.wal
      → view t ≡ touch key value (view logged_store)
      → IsJournal t
  put-IsJournal t good valid disk wal seen =
      Logged-IsJournal s t h valid (disk ∙ disk-log_set key value s ∙ h.memory)
        (LogRecord.set key value) true is
        (rw wal (
          subst (Logged h.records (LogRecord.set key value) logged_store.wal) good
            (log_set-Logged key value s h is)))
        (λ _ k.
          ap (find k) (seen ∙ ap (touch key value) logged_view) ∙ find-touch key value k (view s))
        (λ no_way. absurd (ground (arith, no_way)))

  existing_same :
      (n : Node)
      → ((set_existing key value n.id logged_store).disk ≡ logged_store.disk)
        × ((set_existing key value n.id logged_store).wal ≡ logged_store.wal)
  unfolding set_existing replicate_set
  existing_same n = ground arith

  inserted_same :
      ((replicate_set key value (insert_front key value logged_store)).disk ≡ logged_store.disk)
      × ((replicate_set key value (insert_front key value logged_store)).wal ≡ logged_store.wal)
  unfolding insert_front replicate_set
  inserted_same = ground arith

  set_new-IsJournal :
      (log_set key value s).1 ≡ true
      → find_node key logged_store.items ≡ none
      → IsJournal (set_new key value logged_store)
  unfolding set_new
  set_new-IsJournal good e =
      evict_loop-IsJournal (λ t. not t.replaying && over_capacity t) _ _
        (put-IsJournal (replicate_set key value (insert_front key value logged_store)) good
          (inserted-IsValid key value logged_store logged-IsValid e) inserted_same.0 inserted_same.1
          (inserted_view key value logged_store logged-IsValid e))

  set_logged-IsJournal :
      (log_set key value s).1 ≡ true → IsJournal (set_logged key value logged_store)
  unfolding set_logged
  set_logged-IsJournal good = elim (Option-cases (find_node key logged_store.items)) [
    | inl e ↦
        rw (index_miss logged_store key logged-IsValid e, set_logged) (set_new-IsJournal good e)
    | inr (n, e) ↦
        rw (index_hit logged_store logged-IsValid key n e, set_logged)
          (put-IsJournal (set_existing key value n.id logged_store) good
            (set_existing-IsValid key value logged_store n logged-IsValid e) (existing_same n).0
            (existing_same n).1 (existing_view key value logged_store logged-IsValid n e))
  ]

  pub set-IsJournal : IsJournal (set key value s).0
  unfolding set_memory
  set-IsJournal =
      rw (set_in_memory key value s h.memory) (elim (Bool-cases (log_set key value s).1) [
        | inl e ↦ rw e (set_logged-IsJournal e)
        | inr e ↦ rw e (
            Logged-IsJournal s logged_store h logged-IsValid (disk-log_set key value s ∙ h.memory)
              (LogRecord.set key value) false is
              (subst (Logged h.records (LogRecord.set key value) logged_store.wal) e
                (log_set-Logged key value s h is))
              (λ no_way. absurd (ground (arith, no_way))) (λ _ k. ap (find k) logged_view))
      ])

get_same :
    (key : Bytes) (s : Storage)
    → s.disk ≡ none
    → ((get key s).0.disk ≡ none) × ((get key s).0.wal ≡ s.wal)
unfolding get get_memory
get_same key s e = ground arith

pub get-IsJournal : (key : Bytes) (s : Storage) → IsJournal s → IsJournal (get key s).0
get-IsJournal key s h =
    same-IsJournal s (get key s).0 h (get-IsValid key s h.valid) (get_same key s h.memory).0 h.wal
      ((get_same key s h.memory).1 ∙ h.at) h.written
      (λ k. ap (find k) (get-used key s h.valid h.memory).1 ∙ find-used key k (view s))

del_same :
    (key : Bytes) (s : Storage) (id : ℕ)
    → s.disk ≡ none
    → find key s.index ≡ some id
    → ((del key s).0.disk ≡ none) × ((del key s).0.wal ≡ (log_del key s).0.wal)
unfolding del del_memory replicate_del log_del
del_same key s id memory e = ground arith

pub del-IsJournal : (key : Bytes) (s : Storage) → IsJournal s → IsJournal (del key s).0
del-IsJournal key s h = elim (Option-cases (find_node key s.items)) [
  | inl e ↦ rw (del_in_memory key s h.memory ∙ del_memory-miss key s h.valid e) h
  | inr (n, e) ↦
      let there : find key (view s) ≡ some n.value = find-entries key s.items ∙ ap value_of e in
      let is = (h.sized key n.value there).0 in
      let (disk, wal) = del_same key s n.id h.memory (index_hit s h.valid key n e) in
      let rest : view (del key s).0 ≡ (if (log_del key s).1 then erase key (view s) else view s) =
        (del-Deleted key s h.valid h.memory).entries
        ∙ ap (λ o. if del_logged o (log_del key s).1 then erase key (view s) else view s) there in
      Logged-IsJournal s (del key s).0 h (del-IsValid key s h.valid) disk (LogRecord.del key)
        (log_del key s).1 is (rw wal (log_del-Logged key s h is))
        (λ good k. ap (find k) (rest ∙ ground (arith, good)) ∙ find-erase key k (view s))
        (λ bad k. ap (find k) (rest ∙ ground (arith, bad)))
]
