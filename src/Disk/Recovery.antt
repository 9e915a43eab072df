-- ===== src/Disk/Recovery.antt =====
-- The index that `recover` of src/disk_store.cpp builds from a log of records.
use native.Mathlib.Nat.{add-zero}
use redon.Prelude.{
  ℕ, zero, suc, ◌+◌, ◌≤◌, ◌≡◌, refl, ap, ◌∙◌, Bytes, List, [], ◌∷◌, ◌++◌, append_assoc, none, some,
  arith, length, length-append, All,
}
use redon.Assoc.{assign, erase}
use redon.Wal.{LogRecord, encode, read_record}
use redon.Wal.Format.{IsRecord, read_record-encode}
use redon.Wal.Replay.{encode_all}
use redon.Disk.{Index, set_header, set_bytes, del_bytes}
use redon.Disk.Recover.{scan_loop, index_entry}
use redon.Disk.Scan.{scanned, scan_entry-read_record}

-- The index entry of a record that starts at `pos`.
unfoldable pub index_at : ℕ → LogRecord → Index → Index
index_at pos (LogRecord.set key value) index =
    assign key
      (record { value_pos = pos + length (set_header key value); value_len = length value }) index
index_at pos (LogRecord.del key) index = erase key index

-- The index after records from `pos` on.
unfoldable pub index_from : ℕ → List LogRecord → Index → Index
unfolding index_at
index_from pos [] index = index
index_from pos (r ∷ rs) index = index_from (pos + length (encode r)) rs (index_at pos r index)

pub index_from-append :
    (pos : ℕ) (rs ss : List LogRecord) (index : Index)
    → index_from pos (rs ++ ss) index
      ≡ index_from (pos + length (encode_all rs)) ss (index_from pos rs index)
unfolding index_from encode_all
index_from-append pos [] ss index = rw (add-zero pos)
index_from-append pos (r ∷ rs) ss index =
    index_from-append (pos + length (encode r)) rs ss (index_at pos r index)
    ∙ ap (λ p. index_from p ss (index_from (pos + length (encode r)) rs (index_at pos r index)))
        (omega (arith, length-append (encode r) (encode_all rs)))

pub encode-set_bytes : (key value : Bytes) → encode (LogRecord.set key value) ≡ set_bytes key value
unfolding encode set_bytes set_header
encode-set_bytes key value = simp append_assoc

pub encode-del_bytes : (key : Bytes) → encode (LogRecord.del key) ≡ del_bytes key
unfolding encode del_bytes
encode-del_bytes key = refl

pub length-set_bytes :
    (key value : Bytes)
    → length (set_bytes key value) ≡ length (set_header key value) + length value + 1
unfolding set_bytes
length-set_bytes key value = omega (
  arith,
  length-append (set_header key value) (value ++ b'\n' ∷ []),
  length-append value (b'\n' ∷ []),
)

index_entry-index_at :
    (pos : ℕ) (r : LogRecord) (rest : Bytes) (index : Index)
    → index_entry (pos + length (encode r ++ rest)) (scanned r rest) index ≡ index_at pos r index
unfolding index_entry index_at
index_entry-index_at pos (LogRecord.del key) rest index = refl
index_entry-index_at pos (LogRecord.set key value) rest index =
    ap (λ p. assign key (record { value_pos = p; value_len = length value }) index)
      (omega (
        arith,
        ap length (encode-set_bytes key value),
        length-set_bytes key value,
        length-append (encode (LogRecord.set key value)) rest,
      ))

scan_stop :
    (total fuel : ℕ) (input : Bytes) (index : Index)
    → read_record input ≡ none
    → scan_loop total fuel input index ≡ (index, input)
unfolding scan_loop
scan_stop total zero input index h = refl
scan_stop total (suc fuel) input index h = rw (scan_entry-read_record input, h, scan_loop)

scan_step :
    (total fuel : ℕ) (input rest : Bytes) (r : LogRecord) (index : Index)
    → read_record input ≡ some (r, rest)
    → scan_loop total (suc fuel) input index
      ≡ scan_loop total fuel rest (index_entry total (scanned r rest) index)
unfolding scan_loop
scan_step total fuel input rest r index h = rw (scan_entry-read_record input, h, scan_loop)

-- The scan of a log of complete records with an unreadable tail rebuilds the index of the records
-- and leaves the tail.
pub scan_loop-encode_all :
    (rs : List LogRecord) (tail : Bytes) (pos fuel : ℕ) (index : Index)
    → All IsRecord rs
    → read_record tail ≡ none
    → length rs ≤ fuel
    → scan_loop (pos + length (encode_all rs ++ tail)) fuel (encode_all rs ++ tail) index
      ≡ (index_from pos rs index, tail)
unfolding encode_all index_from
scan_loop-encode_all [] tail pos fuel index h torn enough = scan_stop _ fuel tail index torn
scan_loop-encode_all (r ∷ rs) tail pos zero index h torn enough = absurd (omega arith)
scan_loop-encode_all (r ∷ rs) tail pos (suc fuel) index h torn enough =
    let more = encode_all rs ++ tail in
    let read = read_record-encode r more h.0 in
    rw append_assoc (
      scan_step (pos + length (encode r ++ more)) fuel (encode r ++ more) more r index read
      ∙ ap (scan_loop (pos + length (encode r ++ more)) fuel more)
          (index_entry-index_at pos r more index)
      ∙ ap (λ t. scan_loop t fuel more (index_at pos r index))
          (omega (arith, length-append (encode r) more))
      ∙ scan_loop-encode_all rs tail (pos + length (encode r)) fuel (index_at pos r index) h.1 torn
          (omega arith))
