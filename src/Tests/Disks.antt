-- ===== src/Tests/Disks.antt =====
-- The disk store of src/disk_store.cpp at concrete inputs.
use redon.Prelude.{
  ◌≡◌, refl, true, false, Bytes, List, [], ◌∷◌, ◌++◌, none, some, arith, All, codes, bytes_eq,
  if◌then◌else◌,
}
use redon.Text.{is_space, skip_space, span_token}
use redon.Text.Span.{span}
use redon.Text.Decimal.{to_string, read_size, is_digit, value}
use redon.Stream.{◌>>=◌, read_token, read_number}
use redon.Assoc.{find, assign, erase}
use redon.Output.{write_flush}
use redon.Wal.{LogRecord, encode, read_record}
use redon.Wal.Format.{IsRecord}
use redon.Wal.Replay.{encode_all}
use redon.Wal.View.{view}
use redon.Disk.{DiskStore, set, get, del, set_bytes}
use redon.Disk.Recover.{scan_entry, open_store, compact}
use redon.Disk.Recovery.{index_from, index_at}
use redon.Disk.Logged.{IsLogged}
use redon.Disk.Writes.{Refused, get-set, get-del, set-Refused}
use redon.Disk.Scan.{translate, scan_entry-read_record}
use redon.Disk.Compact.{compact-IsLogged}
use redon.Disk.Restart.{data_file, Restarted, open_store-Restarted}

abbrev written : LogRecord
written = LogRecord.set (codes "k") (codes "a b")

abbrev history : List LogRecord
history = written ∷ LogRecord.set (codes "j") (codes "c") ∷ LogRecord.del (codes "k") ∷ []

history-IsRecord : All IsRecord history
history-IsRecord = (
  ((omega arith, omega arith), (omega arith, omega arith)),
  (((omega arith, omega arith), (omega arith, omega arith)), ((omega arith, omega arith), tt)),
)

torn_lem : read_record (codes "SET 5") ≡ none
unfolding read_record ◌>>=◌ read_token span_token span skip_space is_space bytes_eq read_number
    read_size is_digit value
torn_lem = refl

open_store-Restarted_example :
    let d = open_store (data_file (encode_all history ++ codes "SET 5") (some 3 ∷ [])) in
    Restarted d history × ((k : Bytes) → get k d ≡ view history k)
open_store-Restarted_example =
    open_store-Restarted history (codes "SET 5") (some 3 ∷ []) history-IsRecord torn_lem

-- A store over that history.
abbrev opened : DiskStore
opened = record {
  file = record { contents = encode_all history; outcomes = []; calls = []; is_open = true };
  index = index_from 0 history [];
  ok = true;
}

opened-IsLogged : IsLogged opened history
opened-IsLogged = record { contents = refl; records = history-IsRecord; index = refl }

compact-IsLogged_example :
    ((compact opened).ok ≡ true)
    × ((ss : List LogRecord) × IsLogged (compact opened) ss
        × ((k : Bytes) → view ss k ≡ view history k))
compact-IsLogged_example = compact-IsLogged opened history opened-IsLogged refl refl

set_taken : (set (codes "j") (codes "d") opened).1 ≡ true
unfolding set write_flush
set_taken = refl

get-set_example :
    get (codes "k") (set (codes "j") (codes "d") opened).0
    ≡ (if bytes_eq (codes "j") (codes "k") then some (codes "d") else get (codes "k") opened)
get-set_example =
    get-set opened history (codes "j") (codes "d") (codes "k") opened-IsLogged
      ((omega arith, omega arith), (omega arith, omega arith)) set_taken

del_taken : (del (codes "j") opened).1 ≡ true
unfolding del write_flush find index_from index_at assign erase bytes_eq encode to_string
del_taken = refl

get-del_example :
    get (codes "j") (del (codes "j") opened).0
    ≡ (if bytes_eq (codes "j") (codes "j") then none else get (codes "j") opened)
get-del_example =
    get-del opened history (codes "j") (codes "j") opened-IsLogged (omega arith, omega arith)
      del_taken

-- The same store on a disk whose next flush writes four bytes and fails.
abbrev failing : DiskStore
failing = record opened { file = record opened.file { outcomes = some 4 ∷ [] } }

set_refused : (set (codes "j") (codes "d") failing).1 ≡ false
unfolding set write_flush
set_refused = refl

set-Refused_example :
    Refused failing (set_bytes (codes "j") (codes "d")) (set (codes "j") (codes "d") failing).0
set-Refused_example = set-Refused failing (codes "j") (codes "d") set_refused

scan_entry-read_record_example :
    scan_entry (encode written) ≡ translate (read_record (encode written))
scan_entry-read_record_example = scan_entry-read_record (encode written)
