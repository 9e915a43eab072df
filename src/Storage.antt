-- ===== src/Storage.antt =====
-- src/storage.h and src/storage.cpp: the LRU cache over its list and its index, with the log, the
-- replication and the disk engine behind it. A method returns the new store with its result; the
-- mutex makes each method one step.
pub mod Nodes
pub mod Linked
pub mod Valid
pub mod Keeps
pub mod Alone
pub mod Lru
pub mod Replay
pub mod Snapshot
pub mod Unbounded
pub mod Journal
pub mod Unlinked
use redon.Prelude.{
  ℕ, zero, suc, ◌+◌, Bool, true, false, ◌||◌, ◌&&◌, not, Bytes, List, [], ◌∷◌, map, Option, none,
  some, ltb, ◌==◌, if◌then◌else◌, length,
}
use mathlib.Core.Option
use redon.Assoc.{find, assign, erase}
use redon.Wal
use redon.Wal.{Wal}
use redon.Replication
use redon.Replication.{Replicator}
use redon.Disk
use redon.Disk.{DiskStore}
use redon.Disk.Recover.{open_store}
use redon.Output.{Output}

-- A node of `items_`; its `id` is its address, what an iterator holds.
pub record Node : Type 0 where
  pub id : ℕ
  pub key : Bytes
  pub value : Bytes

pub record Storage : Type 0 where
  pub items : List Node
  pub next_id : ℕ
  pub index : List (Bytes × ℕ)
  pub capacity : ℕ
  pub replaying : Bool
  pub wal : Option Wal
  pub replicator : Option Replicator
  pub disk : Option DiskStore

unfoldable pub new_storage : ℕ → Storage
new_storage capacity = record {
  items = [];
  next_id = 0;
  index = [];
  capacity = capacity;
  replaying = false;
  wal = none;
  replicator = none;
  disk = none;
}

-- `*it`
unfoldable pub node_at : ℕ → List Node → Option Node
node_at id [] = none
node_at id (n ∷ l) = if n.id == id then some n else node_at id l

-- `it->second = value`
unfoldable pub set_value : ℕ → Bytes → List Node → List Node
set_value id value [] = []
set_value id value (n ∷ l) =
    let rest = set_value id value l in
    if n.id == id then record n { value = value } ∷ l else n ∷ rest

-- `items_.erase(it)`
unfoldable pub erase_node : ℕ → List Node → List Node
erase_node id [] = []
erase_node id (n ∷ l) = let rest = erase_node id l in if n.id == id then l else n ∷ rest

-- `items_.splice(items_.begin(), items_, it)`
unfoldable pub splice_front : ℕ → List Node → List Node
splice_front id l = elim (node_at id l) [ none ↦ l | some n ↦ n ∷ erase_node id l ]

-- `items_.back()`, where there is one.
unfoldable pub back : List Node → Option Node
back [] = none
back (n ∷ []) = some n
back (n ∷ m ∷ l) = back (m ∷ l)

unfoldable pub pop_back : List Node → List Node
pop_back [] = []
pop_back (n ∷ []) = []
pop_back (n ∷ m ∷ l) = n ∷ pop_back (m ∷ l)

-- `wal_ == nullptr || wal_->append_set(key, value)`
unfoldable pub log_set : Bytes → Bytes → Storage → Storage × Bool
log_set key value s = elim s.wal [
  | none ↦ (s, true)
  | some w ↦ let (w', ok) = Wal.append_set key value w in (record s { wal = some w' }, ok)
]

unfoldable pub log_del : Bytes → Storage → Storage × Bool
log_del key s = elim s.wal [
  | none ↦ (s, true)
  | some w ↦ let (w', ok) = Wal.append_del key w in (record s { wal = some w' }, ok)
]

unfoldable pub replicate_set : Bytes → Bytes → Storage → Storage
replicate_set key value s = elim s.replicator [
  | none ↦ s
  | some r ↦ record s { replicator = some (Replication.replicate_set key value r) }
]

unfoldable pub replicate_del : Bytes → Storage → Storage
replicate_del key s = elim s.replicator [
  | none ↦ s
  | some r ↦ record s { replicator = some (Replication.replicate_del key r) }
]

unfoldable pub drop_back : Bytes → Storage → Storage
drop_back evicted s = record s { index = erase evicted s.index; items = pop_back s.items }

-- The caller has a node to evict: of an empty list `back()` is undefined in the source, here a failure.
unfoldable pub evict_lru_locked : Bool → Storage → Storage × Bool
evict_lru_locked log_eviction s = elim (back s.items) [
  | none ↦ (s, false)
  | some n ↦
      let (s', logged) = if log_eviction then log_del n.key s else (s, true) in
      if not logged
      then (s', false)
      else (drop_back n.key (if log_eviction then replicate_del n.key s' else s'), true)
]

unfoldable pub over_capacity : Storage → Bool
over_capacity s = ltb 0 s.capacity && ltb s.capacity (length s.index)

-- The two eviction loops. A round that evicts shrinks the index, so as much fuel as the index is long
-- is enough.
unfoldable pub evict_loop : (Storage → Bool) → Bool → ℕ → Storage → Storage
evict_loop test log_eviction zero s = s
evict_loop test log_eviction (suc fuel) s =
    let (s', evicted) = evict_lru_locked log_eviction s in
    let rest = evict_loop test log_eviction fuel s' in
    if test s then (if evicted then rest else s') else s

unfoldable pub set_existing : Bytes → Bytes → ℕ → Storage → Storage
set_existing key value id s =
    replicate_set key value (record s { items = splice_front id (set_value id value s.items) })

unfoldable pub insert_front : Bytes → Bytes → Storage → Storage
insert_front key value s = record s {
  items = record { id = s.next_id; key = key; value = value } ∷ s.items;
  next_id = s.next_id + 1;
  index = assign key s.next_id s.index;
}

unfoldable pub set_new : Bytes → Bytes → Storage → Storage
set_new key value s =
    let s' = replicate_set key value (insert_front key value s) in
    evict_loop (λ t. not t.replaying && over_capacity t) true (length s'.index) s'

-- Behind the log: an existing key is overwritten and moved to the front, a new one inserted there.
unfoldable pub set_logged : Bytes → Bytes → Storage → Storage
set_logged key value s = elim (find key s.index) [
  | none ↦ set_new key value s
  | some id ↦ set_existing key value id s
]

unfoldable pub set_memory : Bytes → Bytes → Storage → Storage × Bool
set_memory key value s =
    let (s', logged) = log_set key value s in
    if not logged then (s', false) else (set_logged key value s', true)

unfoldable pub set_disk : Bytes → Bytes → DiskStore → Storage → Storage × Bool
set_disk key value d s =
    let (d', ok) = Disk.set key value d in
    if not ok
    then (record s { disk = some d' }, false)
    else (replicate_set key value (record s { disk = some d' }), true)

unfoldable pub set : Bytes → Bytes → Storage → Storage × Bool
set key value s = elim s.disk [ none ↦ set_memory key value s | some d ↦ set_disk key value d s ]

unfoldable pub get_memory : Bytes → Storage → Storage × Option Bytes
get_memory key s = elim (find key s.index) [
  | none ↦ (s, none)
  | some id ↦
      let s' = record s { items = splice_front id s.items } in
      (s', Option.map (λ n. n.value) (node_at id s'.items))
]

unfoldable pub get : Bytes → Storage → Storage × Option Bytes
get key s = elim s.disk [ none ↦ get_memory key s | some d ↦ (s, Disk.get key d) ]

-- The number removed, and `*durable`.
unfoldable pub del_memory : Bytes → Storage → Storage × ℕ × Bool
del_memory key s = elim (find key s.index) [
  | none ↦ (s, 0, true)
  | some id ↦
      let (s', logged) = log_del key s in
      let s'' = replicate_del key s' in
      if not logged
      then (s', 0, false)
      else (record s'' { items = erase_node id s''.items; index = erase key s''.index }, 1, true)
]

unfoldable pub del_disk : Bytes → DiskStore → Storage → Storage × ℕ × Bool
del_disk key d s =
    let (d', removed) = Disk.del key d in
    let s' = record s { disk = some d' } in
    if not d'.ok
    then (s', 0, false)
    else (if removed then replicate_del key s' else s', if removed then 1 else 0, true)

unfoldable pub del : Bytes → Storage → Storage × ℕ × Bool
del key s = elim s.disk [ none ↦ del_memory key s | some d ↦ del_disk key d s ]

unfoldable pub exists : Bytes → Storage → Bool
exists key s = elim s.disk [
  | none ↦ elim (find key s.index) [ none ↦ false | some id ↦ true ]
  | some d ↦ Disk.exists key d
]

unfoldable pub size : Storage → ℕ
size s = elim s.disk [ none ↦ length s.index | some d ↦ Disk.size d ]

-- `file` is what the path holds; a store that cannot be opened is dropped again.
unfoldable pub open_disk_backend : Output → Storage → Storage × Bool
open_disk_backend file s =
    let d = open_store file in
    if not d.ok then (record s { disk = none }, false) else (record s { disk = some d }, true)

unfoldable pub attach_wal : Option Wal → Storage → Storage
attach_wal wal s = record s { wal = wal }

unfoldable pub attach_replicator : Option Replicator → Storage → Storage
attach_replicator replicator s = record s { replicator = replicator }

unfoldable pub clear : Storage → Storage × Bool
clear s = elim s.disk [
  | none ↦ (record s { items = []; index = [] }, true)
  | some d ↦ let (d', ok) = Disk.clear d in (record s { disk = some d' }, ok)
]

unfoldable pub set_replaying : Bool → Storage → Storage
set_replaying replaying s =
    let s' = record s { replaying = replaying } in
    if replaying then s' else evict_loop over_capacity false (length s'.index) s'
