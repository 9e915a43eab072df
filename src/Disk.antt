-- ===== src/Disk.antt =====
-- src/disk_store.h and src/disk_store.cpp: the log-structured engine. Values are in the file, and the
-- index in memory says where. Recovery and compaction are in `Recover`.
pub mod Recover
pub mod Scan
pub mod Recovery
pub mod Logged
pub mod Writes
pub mod Compact
pub mod Restart
use redon.Prelude.{
  ℕ, zero, suc, ◌+◌, ◌*◌, ◌-◌, ◌≤◌, Bool, true, false, ◌||◌, ◌&&◌, not, Bytes, List, [], ◌∷◌, ◌++◌,
  Option, none, some, codes, bytes_eq, ltb, leb, ◌==◌, if◌then◌else◌, length, take, drop, is_empty,
}
use redon.Assoc.{find, assign, erase}
use redon.Text.Decimal.{to_string}
use redon.Output.{Output, write_flush, call, open_file}

pub record Entry : Type 0 where
  pub value_pos : ℕ
  pub value_len : ℕ

abbrev pub Index : Type 0
Index = List (Bytes × Entry)

pub record DiskStore : Type 0 where
  pub file : Output
  pub index : Index
  pub ok : Bool

-- The bytes of a SET record before its value.
unfoldable pub set_header : Bytes → Bytes → Bytes
set_header key value =
    codes "SET " ++ (to_string (length key) ++ b' ' ∷ (to_string (length value) ++ b' ' ∷ key))

unfoldable pub set_bytes : Bytes → Bytes → Bytes
set_bytes key value = set_header key value ++ (value ++ b'\n' ∷ [])

unfoldable pub del_bytes : Bytes → Bytes
del_bytes key = codes "DEL " ++ (to_string (length key) ++ b' ' ∷ (key ++ b'\n' ∷ []))

-- `seekg` and `read` of `read_value`: a range past the end fails, and nothing is read of an empty one.
unfoldable pub read_at : Bytes → Entry → Option Bytes
read_at contents e =
    if e.value_len == 0
    then some []
    else if leb (e.value_pos + e.value_len) (length contents)
    then some (take e.value_len (drop e.value_pos contents))
    else none

unfoldable pub set : Bytes → Bytes → DiskStore → DiskStore × Bool
set key value d =
    let (file, good) = write_flush (set_bytes key value) d.file in
    let entry : Entry = record {
      value_pos = length (d.file.contents) + length (set_header key value);
      value_len = length value;
    } in
    if not d.ok || is_empty key || is_empty value
    then (d, false)
    else if good
    then (record d { file = file; index = assign key entry d.index }, true)
    else (record d { file = file; ok = false }, false)

unfoldable pub get : Bytes → DiskStore → Option Bytes
get key d =
    if not d.ok
    then none
    else elim (find key d.index) [ none ↦ none | some e ↦ read_at d.file.contents e ]

del_found : Bytes → DiskStore → DiskStore × Bool
del_found key d =
    let (file, good) = write_flush (del_bytes key) d.file in
    if good
    then (record d { file = file; index = erase key d.index }, true)
    else (record d { file = file; ok = false }, false)

unfoldable pub del : Bytes → DiskStore → DiskStore × Bool
unfolding del_found
del key d =
    if not d.ok || is_empty key
    then (d, false)
    else elim (find key d.index) [ none ↦ (d, false) | some e ↦ del_found key d ]

unfoldable pub exists : Bytes → DiskStore → Bool
exists key d = elim (find key d.index) [ none ↦ false | some e ↦ true ]

unfoldable pub size : DiskStore → ℕ
size d = length d.index

-- The truncating open may fail too, and its result is not looked at.
unfoldable pub clear : DiskStore → DiskStore × Bool
clear d =
    let (f, truncated) = call d.file in
    let f' = open_file (if truncated then record f { contents = [] } else f) in
    (record { file = f'; index = []; ok = f'.is_open }, f'.is_open)

unfoldable pub snapshot_index : DiskStore → Index
snapshot_index d = d.index

read_all : Bytes → Index → List (Bytes × Bytes)
read_all contents [] = []
read_all contents ((k, e) ∷ m) =
    let rest = read_all contents m in
    elim (read_at contents e) [ none ↦ rest | some v ↦ (k, v) ∷ rest ]

-- `opened` is whether the second handle could be opened.
unfoldable pub read_snapshot : Bool → Bytes → Index → List (Bytes × Bytes)
unfolding read_all
read_snapshot opened contents entries = if opened then read_all contents entries else []
