-- ===== src/Disk/Logged.antt =====
-- The invariant of the disk store, its file is a log of records and its index is the index of that
-- log, and what `get` returns under it.
use redon.Prelude.{
  ℕ, ◌+◌, ◌<◌, ◌≡◌, refl, ap, sym, ◌∙◌, Bytes, List, [], ◌∷◌, ◌++◌, append_assoc, append-nil,
  Option, none, some, arith, length, length-append, All, true, take-append_length,
  drop-append_length,
}
use redon.Assoc.{find, find-assign, find-erase}
use redon.Wal.{LogRecord, encode}
use redon.Wal.Format.{IsRecord}
use redon.Wal.Replay.{encode_all}
use redon.Wal.View.{view_record, view_from, view}
use redon.Disk.{Index, DiskStore, set_header, set_bytes, read_at, get}
use redon.Disk.Recovery.{index_at, index_from, encode-set_bytes}

pub record IsLogged (d : DiskStore) (rs : List LogRecord) : Type 0 where
  pub contents : d.file.contents ≡ encode_all rs
  pub records : All IsRecord rs
  pub index : d.index ≡ index_from 0 rs []

-- The value that the index gives for a key.
unfoldable pub look : Bytes → Bytes → Index → Option Bytes
look contents k index = elim (find k index) [ none ↦ none | some e ↦ read_at contents e ]

-- What was just written is read back, whatever is written behind it.
pub read_at_written :
    (front value back : Bytes)
    → 0 < length value
    → read_at
        (front ++ (value ++ back))
        (record { value_pos = length front; value_len = length value })
      ≡ some value
unfolding read_at
read_at_written front value back pos = ground (
  arith,
  drop-append_length front (value ++ back),
  take-append_length value back,
  length-append front (value ++ back),
  length-append value back,
)

pub read_at-encode :
    (front back key value : Bytes)
    → 0 < length value
    → read_at (front ++ (encode (LogRecord.set key value) ++ back)) (record {
      value_pos = length front + length (set_header key value);
      value_len = length value;
    })
      ≡ some value
read_at-encode front back key value pos =
    ap
      (λ n.
        read_at (front ++ (encode (LogRecord.set key value) ++ back))
          (record { value_pos = n; value_len = length value }))
      (sym (length-append front (set_header key value)))
    ∙ ap
        (λ c.
          read_at c (record {
            value_pos = length (front ++ set_header key value);
            value_len = length value;
          }))
        (regroup (set_header key value))
    ∙ read_at_written (front ++ set_header key value) value (b'\n' ∷ back) pos
  where
    regroup :
        (header : Bytes)
        → front ++ (encode (LogRecord.set key value) ++ back)
          ≡ (front ++ set_header key value) ++ (value ++ b'\n' ∷ back)
    regroup header = rw encode-set_bytes (unfold set_bytes in simp append_assoc)

look-index_at :
    (front back : Bytes) (r : LogRecord) (index : Index) (k : Bytes)
    → IsRecord r
    → look (front ++ (encode r ++ back)) k (index_at (length front) r index)
      ≡ view_record r k (look (front ++ (encode r ++ back)) k index)
unfolding look index_at
look-index_at front back (LogRecord.del key) index k h = ground (arith, find-erase key k index)
look-index_at front back (LogRecord.set key value) index k h = ground (
  arith,
  find-assign key k
      (record {
        value_pos = length front + length (set_header key value);
        value_len = length value;
      })
      index,
  read_at-encode front back key value h.1.0,
)

look-index_from :
    (front : Bytes) (rs : List LogRecord) (back c : Bytes) (pos : ℕ) (index : Index) (k : Bytes)
    → All IsRecord rs
    → c ≡ front ++ (encode_all rs ++ back)
    → pos ≡ length front
    → look c k (index_from pos rs index) ≡ view_from rs k (look c k index)
unfolding encode_all index_from view_from
look-index_from front [] back c pos index k h e p = refl
look-index_from front (r ∷ rs) back c pos index k h e p =
    look-index_from (front ++ encode r) rs back c (pos + length (encode r)) (index_at pos r index) k
      h.1 (e ∙ simp append_assoc) (omega (arith, length-append front (encode r)))
    ∙ ap (view_from rs k) here
  where
    here : look c k (index_at pos r index) ≡ view_record r k (look c k index)
    here = rw (p, e, append_assoc) (look-index_at front (encode_all rs ++ back) r index k h.0)

pub look-IsLogged :
    (d : DiskStore) (rs : List LogRecord) (k : Bytes)
    → IsLogged d rs
    → look d.file.contents k d.index ≡ view rs k
look-IsLogged d rs k h =
    ap (look d.file.contents k) h.index
    ∙ look-index_from [] rs [] d.file.contents 0 [] k h.records
        (h.contents ∙ sym (append-nil (encode_all rs))) refl
    ∙ (unfold look find in refl)

-- Under the invariant `get` returns what the log of the file means.
pub get-IsLogged :
    (d : DiskStore) (rs : List LogRecord) (k : Bytes)
    → IsLogged d rs
    → d.ok ≡ true
    → get k d ≡ view rs k
unfolding get
get-IsLogged d rs k h good = rw good (unfold look in look-IsLogged d rs k h)
