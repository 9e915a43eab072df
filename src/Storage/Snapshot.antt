-- ===== src/Storage/Snapshot.antt =====
-- `snapshot_locked` of src/storage.cpp: the entries, and under the same lock a call of the caller's.
use redon.Prelude.{Bool, Bytes, List, map, none, some}
use redon.Disk
use redon.Storage.{Node, Storage}

abbrev pub pair_of : Node → Bytes × Bytes
pair_of n = (n.key, n.value)

-- `while_locked` is what the caller does to the store's surroundings under the lock. Behind the disk
-- engine the values are read after the lock is gone: `opened` is whether the file could be opened then,
-- and `contents` what it holds then.
unfoldable pub snapshot_locked :
    (Storage → Storage) → Bool → Bytes → Storage → Storage × List (Bytes × Bytes)
snapshot_locked while_locked opened contents s = elim s.disk [
  | some d ↦ (while_locked s, Disk.read_snapshot opened contents (Disk.snapshot_index d))
  | none ↦ (while_locked s, map pair_of s.items)
]
