-- ===== src/Disk/Writes.antt =====
-- What `set` and `del` of src/disk_store.cpp leave behind, on every branch.
use redon.Prelude.{
  ℕ, ◌+◌, ◌≡◌, refl, ap, sym, ◌∙◌, ◌⊎◌, Bytes, List, [], ◌∷◌, ◌++◌, append-nil, none, some, arith,
  length, All-append, take, Option-cases, Bool-cases, inl, inr, is_empty, true, false,
  if◌then◌else◌, not, ◌||◌, bytes_eq,
}
use redon.Assoc.{find, assign, erase}
use redon.Output.{write_flush}
use redon.Output.Flush.{write_flush_all, write_flush_part}
use redon.Wal.{LogRecord, encode}
use redon.Wal.Format.{IsRecord}
use redon.Wal.Replay.{encode_all, encode_all-append}
use redon.Disk.{DiskStore, set_header, set_bytes, del_bytes, set, del_found, del, get}
use redon.Disk.Recovery.{
  index_at, index_from, index_from-append, encode-set_bytes, encode-del_bytes,
}
use redon.Disk.Logged.{IsLogged, get-IsLogged}
use redon.Wal.View.{view-concat}

pub encode_all-concat :
    (rs : List LogRecord) (r : LogRecord) → encode_all (rs ++ r ∷ []) ≡ encode_all rs ++ encode r
encode_all-concat rs r =
    encode_all-append rs (r ∷ [])
    ∙ (unfold encode_all in ap (λ t. encode_all rs ++ t) (append-nil (encode r)))

pub index_from-concat :
    (rs : List LogRecord) (r : LogRecord)
    → index_from 0 (rs ++ r ∷ []) [] ≡ index_at (length (encode_all rs)) r (index_from 0 rs [])
unfolding index_from
index_from-concat rs r =
    index_from-append 0 rs (r ∷ []) [] ∙ ap (λ p. index_at p r (index_from 0 rs [])) (omega arith)

IsLogged-concat :
    {d d' : DiskStore} (rs : List LogRecord) (r : LogRecord)
    → IsLogged d rs
    → IsRecord r
    → d'.file.contents ≡ d.file.contents ++ encode r
    → d'.index ≡ index_at (length (d.file.contents)) r d.index
    → IsLogged d' (rs ++ r ∷ [])
IsLogged-concat rs r h hr c i = record {
  contents = c ∙ ap (λ s. s ++ encode r) h.contents ∙ sym (encode_all-concat rs r);
  records = All-append IsRecord rs (r ∷ []) h.records (hr, tt);
  index = i ∙ (rw (h.contents, h.index, index_from-concat rs r) refl);
}

set_done :
    (key value : Bytes) (d : DiskStore)
    → (set key value d).1 ≡ true
    → ((set key value d).0.file.contents ≡ d.file.contents ++ set_bytes key value)
      × ((set key value d).0.index
          ≡ assign key
              (record {
                value_pos = length (d.file.contents) + length (set_header key value);
                value_len = length value;
              })
              d.index)
      × ((set key value d).0.ok ≡ true)
unfolding set
set_done key value d done = ground (arith, write_flush_all (set_bytes key value) d.file)

del_done :
    (key : Bytes) (d : DiskStore)
    → (del key d).1 ≡ true
    → ((del key d).0.file.contents ≡ d.file.contents ++ del_bytes key)
      × ((del key d).0.index ≡ erase key d.index)
      × ((del key d).0.ok ≡ true)
unfolding del del_found
del_done key d done = ground (arith, write_flush_all (del_bytes key) d.file)

set_needs_ok : (key value : Bytes) (d : DiskStore) → (set key value d).1 ≡ true → d.ok ≡ true
unfolding set
set_needs_ok key value d done = ground arith

del_needs_ok : (key : Bytes) (d : DiskStore) → (del key d).1 ≡ true → d.ok ≡ true
unfolding del
del_needs_ok key d done = ground arith

-- A `set` that succeeds has appended its record and no other.
pub set-IsLogged :
    (d : DiskStore) (rs : List LogRecord) (key value : Bytes)
    → IsLogged d rs
    → IsRecord (LogRecord.set key value)
    → (set key value d).1 ≡ true
    → IsLogged (set key value d).0 (rs ++ LogRecord.set key value ∷ [])
unfolding index_at
set-IsLogged d rs key value h hr done =
    let (c, i, _) = set_done key value d done in
    IsLogged-concat rs (LogRecord.set key value) h hr
      (c ∙ ap (λ s. d.file.contents ++ s) (sym (encode-set_bytes key value))) i

pub del-IsLogged :
    (d : DiskStore) (rs : List LogRecord) (key : Bytes)
    → IsLogged d rs
    → IsRecord (LogRecord.del key)
    → (del key d).1 ≡ true
    → IsLogged (del key d).0 (rs ++ LogRecord.del key ∷ [])
unfolding index_at
del-IsLogged d rs key h hr done =
    let (c, i, _) = del_done key d done in
    IsLogged-concat rs (LogRecord.del key) h hr
      (c ∙ ap (λ s. d.file.contents ++ s) (sym (encode-del_bytes key))) i

-- Under the invariant, after a `set` that succeeds `get` returns the value for its key, and for every
-- other key what it returned before.
pub get-set :
    (d : DiskStore) (rs : List LogRecord) (key value j : Bytes)
    → IsLogged d rs
    → IsRecord (LogRecord.set key value)
    → (set key value d).1 ≡ true
    → get j (set key value d).0 ≡ (if bytes_eq key j then some value else get j d)
get-set d rs key value j h hr done =
    let (_, _, good) = set_done key value d done in
    let before = get-IsLogged d rs j h (set_needs_ok key value d done) in
    get-IsLogged (set key value d).0 (rs ++ LogRecord.set key value ∷ []) j
      (set-IsLogged d rs key value h hr done) good
    ∙ view-concat rs (LogRecord.set key value) j
    ∙ ap (λ o. if bytes_eq key j then some value else o) (sym before)

-- Under the invariant, after a `del` that succeeds `get` misses its key, and for every other key
-- returns what it returned before.
pub get-del :
    (d : DiskStore) (rs : List LogRecord) (key j : Bytes)
    → IsLogged d rs
    → IsRecord (LogRecord.del key)
    → (del key d).1 ≡ true
    → get j (del key d).0 ≡ (if bytes_eq key j then none else get j d)
get-del d rs key j h hr done =
    let (_, _, good) = del_done key d done in
    let before = get-IsLogged d rs j h (del_needs_ok key d done) in
    get-IsLogged (del key d).0 (rs ++ LogRecord.del key ∷ []) j (del-IsLogged d rs key h hr done)
      good
    ∙ view-concat rs (LogRecord.del key) j
    ∙ ap (λ o. if bytes_eq key j then none else o) (sym before)

-- What a refused write leaves: nothing has changed, or the store is offline (its flag is off) with its
-- index untouched and a part of the record at the end of the file.
abbrev pub Refused : DiskStore → Bytes → DiskStore → Type 0
Refused d bytes d' =
    (d' ≡ d)
    ⊎ ((d'.ok ≡ false)
        × (d'.index ≡ d.index)
        × ((n : ℕ) × (d'.file.contents ≡ d.file.contents ++ take n bytes)))

-- A `set` that reports failure has changed nothing, or has put the store offline (its flag is off
-- after the call) with its index untouched and a part of its record at the end of the file.
pub set-Refused :
    (d : DiskStore) (key value : Bytes)
    → (set key value d).1 ≡ false
    → Refused d (set_bytes key value) (set key value d).0
unfolding set
set-Refused d key value h = elim (Bool-cases (not d.ok || is_empty key || is_empty value)) [
  | inl idle ↦ inl (ground arith)
  | inr busy ↦ elim (Bool-cases (write_flush (set_bytes key value) d.file).1) [
    | inl good ↦ absurd (ground arith)
    | inr bad ↦
        let (n, e) = write_flush_part (set_bytes key value) d.file bad in
        inr (ground arith, ground arith, (n, ground arith))
  ]
]

-- A `del` that answers false has changed nothing, or has put the store offline with its index
-- untouched and a part of its record at the end of the file.
pub del-Refused :
    (d : DiskStore) (key : Bytes) → (del key d).1 ≡ false → Refused d (del_bytes key) (del key d).0
unfolding del del_found
del-Refused d key h = elim (Bool-cases (not d.ok || is_empty key)) [
  | inl idle ↦ inl (ground arith)
  | inr busy ↦ elim (Option-cases (find key d.index)) [
    | inl miss ↦ inl (ground arith)
    | inr (entry, hit) ↦ elim (Bool-cases (write_flush (del_bytes key) d.file).1) [
      | inl good ↦ absurd (ground arith)
      | inr bad ↦
          let (n, e) = write_flush_part (del_bytes key) d.file bad in
          inr (ground arith, ground arith, (n, ground arith))
    ]
  ]
]
