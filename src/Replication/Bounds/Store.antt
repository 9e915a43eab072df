-- ===== src/Replication/Bounds/Store.antt =====
-- The queues of src/replication.cpp behind the methods of src/storage.cpp.
use mathlib.Core.Path.{subst}
use redon.Prelude.{
  ℕ, zero, suc, ◌≡◌, sym, Bool, true, false, Bytes, none, some, arith, Option-cases, Bool-cases,
  inl, inr,
}
use redon.Assoc.{find}
use redon.Storage.{
  Node, Storage, back, log_set, log_del, replicate_set, replicate_del, drop_back, evict_lru_locked,
  evict_loop, set_existing, insert_front, splice_front, set_value, set_new, set_logged, set_memory,
  set_disk, set, get_memory, get, del_memory, del_disk, del,
}
use redon.Disk
use redon.Disk.{DiskStore}
use redon.Replication
use redon.Replication.{
  Replicator, Link, max_queue, enqueue_link, enqueue, new_links, new_replicator, update_link,
  stop_all, stop_link, begin_streaming, take_line, cleanup, link_at,
}
use redon.Replication.Bounds.Links.{IsBoundedStore, pushed-IsBounded}

abbrev pub Bounded : Storage → Type 0
Bounded s = IsBoundedStore s.replicator

set_queued-IsBounded : (k v : Bytes) (s : Storage) → Bounded s → Bounded (replicate_set k v s)
unfolding replicate_set Replication.replicate_set
set_queued-IsBounded k v s = elim (Option-cases s.replicator) [
  | inl e ↦ rw (e, replicate_set) (λ h. rw e tt)
  | inr (r, e) ↦ rw (e, replicate_set) (λ h. pushed-IsBounded _ r h)
]

del_queued-IsBounded : (k : Bytes) (s : Storage) → Bounded s → Bounded (replicate_del k s)
unfolding replicate_del Replication.replicate_del
del_queued-IsBounded k s = elim (Option-cases s.replicator) [
  | inl e ↦ rw (e, replicate_del) (λ h. rw e tt)
  | inr (r, e) ↦ rw (e, replicate_del) (λ h. pushed-IsBounded _ r h)
]

unlogged : (k v : Bytes) (s : Storage) → (log_set k v s).0.replicator ≡ s.replicator
unfolding log_set
unlogged k v s = ground arith

unlogged_del : (k : Bytes) (s : Storage) → (log_del k s).0.replicator ≡ s.replicator
unfolding log_del
unlogged_del k s = ground arith

evict_dropped :
    (s : Storage) (n : Node)
    → back s.items ≡ some n
    → (log_del n.key s).1 ≡ true
    → (evict_lru_locked true s).0.replicator ≡ (replicate_del n.key (log_del n.key s).0).replicator
unfolding evict_lru_locked drop_back
evict_dropped s n e ok = ground arith

evict_refused :
    (s : Storage) (n : Node)
    → back s.items ≡ some n
    → (log_del n.key s).1 ≡ false
    → (evict_lru_locked true s).0.replicator ≡ (log_del n.key s).0.replicator
unfolding evict_lru_locked
evict_refused s n e no_log = ground arith

evict_empty :
    (s : Storage) → back s.items ≡ none → (evict_lru_locked true s).0.replicator ≡ s.replicator
unfolding evict_lru_locked
evict_empty s e = ground arith

logged-IsBounded : (k v : Bytes) (s : Storage) → Bounded s → Bounded (log_set k v s).0
logged-IsBounded k v s h = subst IsBoundedStore (sym (unlogged k v s)) h

logged_del-IsBounded : (k : Bytes) (s : Storage) → Bounded s → Bounded (log_del k s).0
logged_del-IsBounded k s h = subst IsBoundedStore (sym (unlogged_del k s)) h

evict-IsBounded : (s : Storage) → Bounded s → Bounded (evict_lru_locked true s).0
evict-IsBounded s h = elim (Option-cases (back s.items)) [
  | inl e ↦ subst IsBoundedStore (sym (evict_empty s e)) h
  | inr (n, e) ↦
      let t = (log_del n.key s).0 in
      elim (Bool-cases (log_del n.key s).1) [
        | inl ok ↦
            subst IsBoundedStore (sym (evict_dropped s n e ok))
              (del_queued-IsBounded n.key t (logged_del-IsBounded n.key s h))
        | inr refused ↦
            subst IsBoundedStore (sym (evict_refused s n e refused))
              (logged_del-IsBounded n.key s h)
      ]
]

evict_loop-IsBounded :
    (test : Storage → Bool) (fuel : ℕ) (s : Storage)
    → Bounded s
    → Bounded (evict_loop test true fuel s)
unfolding evict_loop
evict_loop-IsBounded test zero s h = h
evict_loop-IsBounded test (suc fuel) s h =
    let t = (evict_lru_locked true s).0 in
    let one = evict-IsBounded s h in
    elim (Bool-cases (test s)) [
      | inl e ↦ elim (Bool-cases (evict_lru_locked true s).1) [
        | inl e' ↦ rw (e, e') (evict_loop-IsBounded test fuel t one)
        | inr e' ↦ rw (e, e') one
      ]
      | inr e ↦ rw e h
    ]

set_logged-IsBounded : (k v : Bytes) (s : Storage) → Bounded s → Bounded (set_logged k v s)
unfolding set_logged
set_logged-IsBounded k v s h = elim (Option-cases (find k s.index)) [
  | inl e ↦ rw (e, set_logged) new
  | inr (id, e) ↦ rw (e, set_logged) (existing id)
]
  where
    new : Bounded (set_new k v s)
    new =
        unfold set_new insert_front in
        evict_loop-IsBounded _ _ (replicate_set k v (insert_front k v s))
          (set_queued-IsBounded k v (insert_front k v s) h)

    existing : (id : ℕ) → Bounded (set_existing k v id s)
    existing id =
        unfold set_existing in
        set_queued-IsBounded k v (record s { items = splice_front id (set_value id v s.items) }) h

set_memory-IsBounded : (k v : Bytes) (s : Storage) → Bounded s → Bounded (set_memory k v s).0
unfolding set_memory
set_memory-IsBounded k v s h =
    let logged = logged-IsBounded k v s h in
    elim (Bool-cases (log_set k v s).1) [
      | inl e ↦ rw e (set_logged-IsBounded k v (log_set k v s).0 logged)
      | inr e ↦ rw e logged
    ]

set_disk-IsBounded :
    (k v : Bytes) (d : DiskStore) (s : Storage) → Bounded s → Bounded (set_disk k v d s).0
unfolding set_disk
set_disk-IsBounded k v d s h = elim (Bool-cases (Disk.set k v d).1) [
  | inl e ↦ rw e (set_queued-IsBounded k v (record s { disk = some (Disk.set k v d).0 }) h)
  | inr e ↦ rw e h
]

pub set-IsBounded : (k v : Bytes) (s : Storage) → Bounded s → Bounded (set k v s).0
unfolding set
set-IsBounded k v s h = elim (Option-cases s.disk) [
  | inl e ↦ rw (e, set) (set_memory-IsBounded k v s h)
  | inr (d, e) ↦ rw (e, set) (set_disk-IsBounded k v d s h)
]

pub replicator-get : (k : Bytes) (s : Storage) → (get k s).0.replicator ≡ s.replicator
unfolding get get_memory
replicator-get k s = ground arith

del_memory-IsBounded : (k : Bytes) (s : Storage) → Bounded s → Bounded (del_memory k s).0
unfolding del_memory
del_memory-IsBounded k s h =
    let t = (log_del k s).0 in
    let logged = logged_del-IsBounded k s h in
    elim (Option-cases (find k s.index)) [
      | inl e ↦ rw (e, del_memory) h
      | inr (id, e) ↦ elim (Bool-cases (log_del k s).1) [
        | inl ok ↦ rw (e, del_memory, ok) (del_queued-IsBounded k t logged)
        | inr refused ↦ rw (e, del_memory, refused) logged
      ]
    ]

del_disk-IsBounded :
    (k : Bytes) (d : DiskStore) (s : Storage) → Bounded s → Bounded (del_disk k d s).0
unfolding del_disk
del_disk-IsBounded k d s h =
    let s' = record s { disk = some (Disk.del k d).0 } in
    elim (Bool-cases (Disk.del k d).0.ok) [
      | inl ok ↦ elim (Bool-cases (Disk.del k d).1) [
        | inl e ↦ rw (ok, e) (del_queued-IsBounded k s' h)
        | inr e ↦ rw (ok, e) h
      ]
      | inr e ↦ rw e h
    ]

pub del-IsBounded : (k : Bytes) (s : Storage) → Bounded s → Bounded (del k s).0
unfolding del
del-IsBounded k s h = elim (Option-cases s.disk) [
  | inl e ↦ rw (e, del) (del_memory-IsBounded k s h)
  | inr (d, e) ↦ rw (e, del) (del_disk-IsBounded k d s h)
]
