-- ===== src/Disk/Recover.antt =====
-- `recover` and `compact` of src/disk_store.cpp, and the constructor that runs them.
use redon.Prelude.{
  ℕ, zero, suc, ◌+◌, ◌*◌, ◌-◌, Bool, true, false, ◌||◌, ◌&&◌, not, Bytes, [], ◌∷◌, ◌++◌, none, some,
  codes, bytes_eq, ltb, ◌==◌, if◌then◌else◌, length, take, drop, is_empty,
}
use redon.Assoc.{assign, erase}
use redon.Stream.{
  Reader, ◌>>=◌, ◌>>◌, pure, guard, fail, read_token, read_number, expect, read_bytes,
}
use redon.Output.{Output, write_flush, call, open_file}
use redon.Disk.{Index, DiskStore, set_header, set_bytes, read_at}

abbrev pub max_field : ℕ
max_field = 256 * 1024 * 1024

-- What one round of `recover` reads: `unread` is the number of bytes behind `value_pos`.
pub data Scanned : Type 0 where
  set_at : Bytes → ℕ → ℕ → Scanned
  del_of : Bytes → Scanned

-- `tellg`, as the number of bytes that are left.
unfoldable pub unread : Reader ℕ
unread s = some (length s, s)

-- `seekg(n, std::ios::cur)`, which succeeds past the end too.
unfoldable pub skip : ℕ → Reader (Unit {0})
skip n s = some (tt, drop n s)

abbrev pub sane : ℕ → Bool
sane n = not (n == 0 || ltb max_field n)

unfoldable pub scan_set : Reader Scanned
unfolding unread skip
scan_set = do
  klen ← read_number
  vlen ← read_number
  guard (sane klen && sane vlen)
  expect b' '
  key ← read_bytes klen
  left ← unread
  skip vlen
  expect b'\n'
  pure (set_at key left vlen)

unfoldable pub scan_del : Reader Scanned
scan_del = do
  klen ← read_number
  guard (sane klen)
  expect b' '
  key ← read_bytes klen
  expect b'\n'
  pure (del_of key)

unfoldable pub scan_op : Bytes → Reader Scanned
scan_op op =
    if bytes_eq op (codes "SET")
    then scan_set
    else if bytes_eq op (codes "DEL")
    then scan_del
    else fail

unfoldable pub scan_entry : Reader Scanned
unfolding scan_op scan_set scan_del
scan_entry = read_token >>= scan_op

unfoldable pub index_entry : ℕ → Scanned → Index → Index
index_entry total (set_at key left vlen) index =
    assign key (record { value_pos = total - left; value_len = vlen }) index
index_entry total (del_of key) index = erase key index

-- The scan of a file of `total` bytes: the index, and the bytes behind the last complete record.
unfoldable pub scan_loop : ℕ → ℕ → Bytes → Index → Index × Bytes
unfolding scan_entry index_entry
scan_loop total zero input index = (index, input)
scan_loop total (suc fuel) input index = elim (scan_entry input) [
  | none ↦ (index, input)
  | some (r, rest) ↦ scan_loop total fuel rest (index_entry total r index)
]

-- Everything behind the last complete record is dropped. The result of `resize_file` is not looked
-- at: if it fails the bytes stay.
unfoldable pub heal : Bytes → DiskStore → DiskStore
heal tail d =
    let last_good = length (d.file.contents) - length tail in
    let (f, resized) = call d.file in
    let f' = open_file (if resized then record f { contents = take last_good f.contents } else f) in
    if is_empty tail then d else record d { file = f'; ok = f'.is_open }

-- The loop of `compact` over the index: the bytes of the new file, its index, and whether every value
-- could be read.
unfoldable pub gather : Bytes → Index → Bytes → Index → Bytes × Index × Bool
gather contents [] out new_index = (out, new_index, true)
gather contents ((k, e) ∷ m) out new_index = elim (read_at contents e) [
  | none ↦ (out, new_index, false)
  | some v ↦ gather contents m (out ++ set_bytes k v) (
      assign k (record { value_pos = length out + length (set_header k v); value_len = length v })
        new_index)
]

-- After the temporary file is written: the rename, and the reopening of the data file.
unfoldable pub adopt : Bytes → Index → Output → DiskStore → DiskStore
adopt out new_index f d =
    let (g, renamed) = call f in
    let f' = open_file (if renamed then record g { contents = out } else g) in
    record { file = f'; index = if renamed then new_index else d.index; ok = f'.is_open }

unfoldable pub compact : DiskStore → DiskStore
unfolding adopt gather
compact d =
    let (f, created) = call d.file in
    let (out, new_index, all_read) = gather f.contents d.index [] [] in
    let (tmp, flushed) = write_flush out (record f { contents = []; is_open = true }) in
    let f' = record f { outcomes = tmp.outcomes } in
    if not created
    then record d { file = f }
    else if all_read && flushed
    then adopt out new_index f' d
    else record d { file = f' }

unfoldable pub live_bytes : Index → ℕ
live_bytes [] = 0
live_bytes ((k, e) ∷ m) = length k + e.value_len + 24 + live_bytes m

-- The two tests behind the healing.
unfoldable pub choice : Bool → DiskStore → DiskStore
choice wasteful d = if not d.ok then d else if wasteful then compact d else d

-- What `recover` does behind its loop, with the index and the unread bytes of the scan.
unfoldable pub after_scan : Index × Bytes → DiskStore → DiskStore
after_scan (index, tail) d =
    let healed = heal tail (record d { index = index }) in
    let file_size = length (d.file.contents) - length tail in
    let wasteful = ltb 0 file_size && ltb (2 * live_bytes index + 4096) file_size in
    choice wasteful healed

unfoldable pub recover : DiskStore → DiskStore
recover d =
    let total = length (d.file.contents) in
    after_scan (scan_loop total total d.file.contents d.index) d

-- The constructor, for a path that holds `f.contents`.
unfoldable pub open_store : Output → DiskStore
open_store f =
    let f' = open_file f in
    let d : DiskStore = record { file = f'; index = []; ok = f'.is_open } in
    if f'.is_open then recover d else d
