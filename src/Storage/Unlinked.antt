-- ===== src/Storage/Unlinked.antt =====
-- The store of src/storage.cpp without followers, and the replay of src/wal.cpp into it.
use redon.Prelude.{
  ℕ, zero, suc, ◌≡◌, Bool, true, false, Bytes, none, arith, length, Bool-cases, Option-cases, inl,
  inr,
}
use redon.Assoc.{find}
use redon.Output.{Output}
use redon.Wal.{LogRecord, read_record, replay_loop}
use redon.Storage.{
  Storage, log_set, log_del, replicate_set, replicate_del, drop_back, evict_lru_locked, evict_loop,
  set_existing, insert_front, set_new, set_logged, set_memory, set_disk, set, del_memory, del_disk,
  del, set_replaying, over_capacity, open_disk_backend,
}
use redon.Storage.Replay.{apply_record, replay_into}

abbrev pub IsUnlinked : Storage → Type 0
IsUnlinked s = s.replicator ≡ none

evict-IsUnlinked : (log : Bool) (s : Storage) → IsUnlinked s → IsUnlinked (evict_lru_locked log s).0
unfolding evict_lru_locked log_del drop_back replicate_del
evict-IsUnlinked log s h = ground arith

evict_loop-IsUnlinked :
    (test : Storage → Bool) (log : Bool) (fuel : ℕ) (s : Storage)
    → IsUnlinked s
    → IsUnlinked (evict_loop test log fuel s)
unfolding evict_loop
evict_loop-IsUnlinked test log zero s h = h
evict_loop-IsUnlinked test log (suc fuel) s h =
    let one = evict-IsUnlinked log s h in
    let rest = evict_loop-IsUnlinked test log fuel (evict_lru_locked log s).0 one in
    elim (Bool-cases (test s)) [
      | inl e ↦ elim (Bool-cases (evict_lru_locked log s).1) [
        | inl e' ↦ rw (e, e') rest
        | inr e' ↦ rw (e, e') one
      ]
      | inr e ↦ rw e h
    ]

existing-IsUnlinked :
    (k v : Bytes) (id : ℕ) (s : Storage) → IsUnlinked s → IsUnlinked (set_existing k v id s)
unfolding set_existing replicate_set
existing-IsUnlinked k v id s h = ground arith

inserted-IsUnlinked :
    (k v : Bytes) (s : Storage) → IsUnlinked s → IsUnlinked (replicate_set k v (insert_front k v s))
unfolding insert_front replicate_set
inserted-IsUnlinked k v s h = ground arith

set_logged-IsUnlinked : (k v : Bytes) (s : Storage) → IsUnlinked s → IsUnlinked (set_logged k v s)
unfolding set_logged
set_logged-IsUnlinked k v s h = elim (Option-cases (find k s.index)) [
  | inl e ↦
      rw (e, set_logged)
        (unfold set_new in evict_loop-IsUnlinked _ true _ _ (inserted-IsUnlinked k v s h))
  | inr (id, e) ↦ rw (e, set_logged) (existing-IsUnlinked k v id s h)
]

log_set-IsUnlinked : (k v : Bytes) (s : Storage) → IsUnlinked s → IsUnlinked (log_set k v s).0
unfolding log_set
log_set-IsUnlinked k v s h = ground arith

set_memory-IsUnlinked : (k v : Bytes) (s : Storage) → IsUnlinked s → IsUnlinked (set_memory k v s).0
unfolding set_memory
set_memory-IsUnlinked k v s h =
    let logged = log_set-IsUnlinked k v s h in
    elim (Bool-cases (log_set k v s).1) [
      | inl e ↦ rw e (set_logged-IsUnlinked k v (log_set k v s).0 logged)
      | inr e ↦ rw e logged
    ]

set-IsUnlinked : (k v : Bytes) (s : Storage) → IsUnlinked s → IsUnlinked (set k v s).0
unfolding set
set-IsUnlinked k v s h = elim (Option-cases s.disk) [
  | inl e ↦ rw (e, set) (set_memory-IsUnlinked k v s h)
  | inr (d, e) ↦ rw (e, set) (unfold set_disk replicate_set in ground arith)
]

del-IsUnlinked : (k : Bytes) (s : Storage) → IsUnlinked s → IsUnlinked (del k s).0
unfolding del del_memory del_disk log_del replicate_del
del-IsUnlinked k s h = ground arith

apply-IsUnlinked : (r : LogRecord) (s : Storage) → IsUnlinked s → IsUnlinked (apply_record r s)
unfolding apply_record
apply-IsUnlinked (LogRecord.set k v) s h = set-IsUnlinked k v s h
apply-IsUnlinked (LogRecord.del k) s h = del-IsUnlinked k s h

loop-IsUnlinked :
    (fuel : ℕ) (input : Bytes) (s : Storage) (applied : ℕ)
    → IsUnlinked s
    → IsUnlinked (replay_loop apply_record fuel input s applied).0
unfolding replay_loop
loop-IsUnlinked zero input s applied h = h
loop-IsUnlinked (suc fuel) input s applied h = elim (Option-cases (read_record input)) [
  | inl e ↦ rw (e, replay_loop) h
  | inr ((r, rest), e) ↦
      rw (e, replay_loop) (loop-IsUnlinked fuel rest (apply_record r s) _ (apply-IsUnlinked r s h))
]

replaying-IsUnlinked : (b : Bool) (s : Storage) → IsUnlinked s → IsUnlinked (set_replaying b s)
unfolding set_replaying
replaying-IsUnlinked true s h = h
replaying-IsUnlinked false s h =
    evict_loop-IsUnlinked over_capacity false (length s.index) (record s { replaying = false }) h

pub replay_into-IsUnlinked :
    (contents : Bytes) (s : Storage) → IsUnlinked s → IsUnlinked (replay_into contents s).0
unfolding replay_into
replay_into-IsUnlinked contents s h = replaying-IsUnlinked false _ (
    loop-IsUnlinked (length contents) contents (set_replaying true s) 0
      (replaying-IsUnlinked true s h))

pub open_disk-IsUnlinked :
    (file : Output) (s : Storage) → IsUnlinked s → IsUnlinked (open_disk_backend file s).0
unfolding open_disk_backend
open_disk-IsUnlinked file s h = ground arith
