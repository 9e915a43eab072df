-- ===== src/Storage/Keeps.antt =====
-- The methods of src/storage.cpp and the invariant of its cache.
use redon.Prelude.{
  ℕ, ◌≡◌, refl, Bool, true, false, Bytes, List, [], ◌∷◌, Option, none, some, arith, Option-cases,
  Bool-cases, inl, inr,
}
use redon.Assoc.{find, erase}
use redon.Wal.{Wal}
use redon.Replication.{Replicator}
use redon.Disk.{DiskStore}
use redon.Storage.{
  Node, Storage, new_storage, erase_node, log_set, log_del, replicate_set, replicate_del,
  set_existing, insert_front, set_new, set_logged, set_memory, set_disk, set, get_memory, get,
  del_memory, del_disk, del, clear, attach_wal, attach_replicator, set_replaying, over_capacity,
}
use redon.Storage.Nodes.{find_node}
use redon.Storage.Linked.{IsLinked-touch, IsLinked-insert, IsLinked-erase}
use redon.Storage.Valid.{
  IsValid, SameCache, SameCache-IsValid, SameCache-log_set, SameCache-log_del,
  SameCache-replicate_set, SameCache-replicate_del, evict_loop-IsValid, splice_set, splice_hit,
  erase_hit, index_hit, index_miss,
}

pub new_storage-IsValid : (capacity : ℕ) → IsValid (new_storage capacity)
unfolding new_storage find_node find
new_storage-IsValid capacity = record {
  keys = tt;
  ids = tt;
  fresh = tt;
  linked = λ k. refl;
  index_keys = tt;
  sizes = refl;
}

pub set_existing-IsValid :
    (key value : Bytes) (s : Storage) (n : Node)
    → IsValid s
    → find_node key s.items ≡ some n
    → IsValid (set_existing key value n.id s)
unfolding set_existing
set_existing-IsValid key value s n h e =
    SameCache-IsValid _ _ (SameCache-replicate_set key value _)
      (rw (splice_set s h key n e value) (IsLinked-touch s.items s.next_id s.index h key value n e))

set_new-IsValid :
    (key value : Bytes) (s : Storage)
    → IsValid s
    → find_node key s.items ≡ none
    → IsValid (set_new key value s)
unfolding set_new insert_front
set_new-IsValid key value s h e = evict_loop-IsValid _ true _ _ (
    SameCache-IsValid _ _ (SameCache-replicate_set key value _)
      (IsLinked-insert s.items s.next_id s.index h key value e))

set_logged-IsValid :
    (key value : Bytes) (s : Storage) → IsValid s → IsValid (set_logged key value s)
unfolding set_logged
set_logged-IsValid key value s h = elim (Option-cases (find_node key s.items)) [
  | inl e ↦ rw (index_miss s key h e, set_logged) (set_new-IsValid key value s h e)
  | inr (n, e) ↦ rw (index_hit s h key n e, set_logged) (set_existing-IsValid key value s n h e)
]

set_memory-IsValid :
    (key value : Bytes) (s : Storage) → IsValid s → IsValid (set_memory key value s).0
unfolding set_memory
set_memory-IsValid key value s h =
    let same = SameCache-IsValid s _ (SameCache-log_set key value s) h in
    elim (Bool-cases (log_set key value s).1) [
      | inl e ↦ rw e (set_logged-IsValid key value (log_set key value s).0 same)
      | inr e ↦ rw e same
    ]

SameCache-set_disk :
    (key value : Bytes) (d : DiskStore) (s : Storage) → SameCache s (set_disk key value d s).0
unfolding set_disk replicate_set
SameCache-set_disk key value d s = ground arith

SameCache-del_disk : (key : Bytes) (d : DiskStore) (s : Storage) → SameCache s (del_disk key d s).0
unfolding del_disk replicate_del
SameCache-del_disk key d s = ground arith

-- SET keeps the list and the index of the cache in agreement.
pub set-IsValid : (key value : Bytes) (s : Storage) → IsValid s → IsValid (set key value s).0
unfolding set
set-IsValid key value s h = elim (Option-cases s.disk) [
  | inl e ↦ rw (e, set) (set_memory-IsValid key value s h)
  | inr (d, e) ↦ rw (e, set) (SameCache-IsValid s _ (SameCache-set_disk key value d s) h)
]

get_memory-IsValid : (key : Bytes) (s : Storage) → IsValid s → IsValid (get_memory key s).0
unfolding get_memory
get_memory-IsValid key s h = elim (Option-cases (find_node key s.items)) [
  | inl e ↦ rw (index_miss s key h e, get_memory) h
  | inr (n, e) ↦
      rw (index_hit s h key n e, get_memory, splice_hit s h key n e)
        (IsLinked-touch s.items s.next_id s.index h key n.value n e)
]

-- GET keeps it.
pub get-IsValid : (key : Bytes) (s : Storage) → IsValid s → IsValid (get key s).0
unfolding get
get-IsValid key s h = elim (Option-cases s.disk) [
  | inl e ↦ rw (e, get) (get_memory-IsValid key s h)
  | inr (d, e) ↦ rw (e, get) h
]

del_hit-IsValid :
    (key : Bytes) (s t : Storage) (n : Node)
    → IsValid s
    → find_node key s.items ≡ some n
    → SameCache s t
    → IsValid (record t { items = erase_node n.id t.items; index = erase key t.index })
del_hit-IsValid key s t n h e same =
    rw (same.items, same.next_id, same.index, erase_hit s h key n e)
      (IsLinked-erase s.items s.next_id s.index h key n e)

SameCache-trans : (s t u : Storage) → SameCache s t → SameCache t u → SameCache s u
SameCache-trans s t u p q = ground arith

del_memory-IsValid : (key : Bytes) (s : Storage) → IsValid s → IsValid (del_memory key s).0
unfolding del_memory
del_memory-IsValid key s h = elim (Option-cases (find_node key s.items)) [
  | inl e ↦ rw (index_miss s key h e, del_memory) h
  | inr (n, e) ↦
      let logged = (log_del key s).0 in
      let same =
        SameCache-trans s logged (replicate_del key logged) (SameCache-log_del key s)
          (SameCache-replicate_del key logged) in
      elim (Bool-cases (log_del key s).1) [
        | inl e' ↦
            rw (index_hit s h key n e, del_memory, e')
              (del_hit-IsValid key s (replicate_del key logged) n h e same)
        | inr e' ↦
            rw (index_hit s h key n e, del_memory, e')
              (SameCache-IsValid s logged (SameCache-log_del key s) h)
      ]
]

-- DEL keeps it.
pub del-IsValid : (key : Bytes) (s : Storage) → IsValid s → IsValid (del key s).0
unfolding del
del-IsValid key s h = elim (Option-cases s.disk) [
  | inl e ↦ rw (e, del) (del_memory-IsValid key s h)
  | inr (d, e) ↦ rw (e, del) (SameCache-IsValid s _ (SameCache-del_disk key d s) h)
]

pub clear-IsValid : (s : Storage) → IsValid s → IsValid (clear s).0
unfolding clear find_node find
clear-IsValid s h = elim (Option-cases s.disk) [
  | inl e ↦
      rw (e, clear)
        (record {
          keys = tt;
          ids = tt;
          fresh = tt;
          linked = λ k. refl;
          index_keys = tt;
          sizes = refl;
        })
  | inr (d, e) ↦ rw (e, clear) h
]

set_replaying-IsValid : (b : Bool) (s : Storage) → IsValid s → IsValid (set_replaying b s)
unfolding set_replaying
set_replaying-IsValid true s h = h
set_replaying-IsValid false s h = evict_loop-IsValid over_capacity false _ _ h

-- A call of the store.
pub data Call : Type 0 where
  set_call : Bytes → Bytes → Call
  get_call del_call : Bytes → Call
  clear_call : Call
  replaying_call : Bool → Call
  wal_call : Option Wal → Call
  replicator_call : Option Replicator → Call

unfoldable pub run_call : Call → Storage → Storage
run_call (set_call key value) s = (set key value s).0
run_call (get_call key) s = (get key s).0
run_call (del_call key) s = (del key s).0
run_call clear_call s = (clear s).0
run_call (replaying_call b) s = set_replaying b s
run_call (wal_call w) s = attach_wal w s
run_call (replicator_call r) s = attach_replicator r s

unfoldable pub run_calls : List Call → Storage → Storage
unfolding run_call
run_calls [] s = s
run_calls (c ∷ cs) s = run_calls cs (run_call c s)

run_call-IsValid : (c : Call) (s : Storage) → IsValid s → IsValid (run_call c s)
unfolding run_call attach_wal attach_replicator
run_call-IsValid (set_call key value) s h = set-IsValid key value s h
run_call-IsValid (get_call key) s h = get-IsValid key s h
run_call-IsValid (del_call key) s h = del-IsValid key s h
run_call-IsValid clear_call s h = clear-IsValid s h
run_call-IsValid (replaying_call b) s h = set_replaying-IsValid b s h
run_call-IsValid (wal_call w) s h = h
run_call-IsValid (replicator_call r) s h = h

-- Whatever calls a store has had, with whatever answers of the log, the disk engine and the followers,
-- its list holds each key once, at distinct addresses, its index leads each key to the node of that
-- key and no other key anywhere, and the two have the same size.
pub run_calls-IsValid : (cs : List Call) (s : Storage) → IsValid s → IsValid (run_calls cs s)
unfolding run_calls
run_calls-IsValid [] s h = h
run_calls-IsValid (c ∷ cs) s h = run_calls-IsValid cs (run_call c s) (run_call-IsValid c s h)
