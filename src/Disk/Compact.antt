-- ===== src/Disk/Compact.antt =====
-- The compaction of src/disk_store.cpp and its invariant.
use mathlib.Core.Path.{ap₂, subst}
use redon.Prelude.{
  ℕ, ◌+◌, ◌≡◌, refl, ap, sym, ◌∙◌, Bytes, List, [], ◌∷◌, ◌++◌, append_assoc, append-nil, Option,
  none, some, arith, length, length-append, All, Bool-cases, inl, inr, true, false, Bool,
  bytes_eq_iff,
}
use redon.Assoc.{find, Distinct, Distinct-assign, Distinct-erase, All-assign, All-erase}
use redon.Output.{Output, write_flush, call, open_file}
use redon.Wal.{LogRecord, encode}
use redon.Wal.Format.{IsField, IsRecord}
use redon.Wal.Replay.{encode_all}
use redon.Wal.View.{view_from, view}
use redon.Disk.{Entry, Index, DiskStore, set_header, set_bytes, read_at}
use redon.Disk.Recover.{gather, adopt, compact}
use redon.Disk.Recovery.{index_at, index_from, encode-set_bytes}
use redon.Disk.Logged.{IsLogged, look, look-IsLogged, read_at-encode}
use redon.Disk.Writes.{encode_all-concat, index_from-concat}

-- An entry whose key and value could stand in a record, and whose value is in the file.
abbrev pub Live : Bytes → Bytes × Entry → Type 0
Live contents (k, e) = IsField k × ((v : Bytes) × (read_at contents e ≡ some v) × IsField v)

-- The records that compaction writes.
unfoldable pub live : Bytes → Index → List LogRecord
live contents [] = []
live contents ((k, e) ∷ m) =
    let rest = live contents m in
    elim (read_at contents e) [ none ↦ rest | some v ↦ LogRecord.set k v ∷ rest ]

live-records : (c : Bytes) (m : Index) → All (Live c) m → All IsRecord (live c m)
unfolding live
live-records c [] h = tt
live-records c ((k, e) ∷ m) h =
    let (v, read, hv) = h.0.1 in rw (read, live) ((h.0.0, hv), live-records c m h.1)

view_from-live :
    (c : Bytes) (m : Index) (k : Bytes) (o : Option Bytes)
    → All (Live c) m
    → Distinct m
    → view_from (live c m) k o ≡ elim (find k m) [ none ↦ o | some e ↦ read_at c e ]
unfolding live view_from find
view_from-live c [] k o h d = refl
view_from-live c ((j, e) ∷ m) k o h d =
    let (v, read, hv) = h.0.1 in
    ground (
      arith,
      read,
      bytes_eq_iff j k,
      view_from-live c m k o h.1 d.1,
      view_from-live c m k (some v) h.1 d.1,
    )

gather-live :
    (c : Bytes) (m : Index) (ds : List LogRecord)
    → All (Live c) m
    → gather c m (encode_all ds) (index_from 0 ds [])
      ≡ (encode_all (ds ++ live c m), index_from 0 (ds ++ live c m) [], true)
unfolding gather live index_at
gather-live c [] ds h = rw append-nil
gather-live c ((k, e) ∷ m) ds h =
    let (v, read, hv) = h.0.1 in
    let r = LogRecord.set k v in
    let out : encode_all ds ++ set_bytes k v ≡ encode_all (ds ++ r ∷ []) =
      ap (λ s. encode_all ds ++ s) (sym (encode-set_bytes k v)) ∙ sym (encode_all-concat ds r) in
    rw (read, gather, live)
      (ap₂ (gather c m) out (sym (index_from-concat ds r))
        ∙ gather-live c m (ds ++ r ∷ []) h.1
        ∙ ap (λ l. (encode_all l, index_from 0 l [], true)) (append_assoc ds (r ∷ []) (live c m)))

All-Live-index_from :
    (front : Bytes) (rs : List LogRecord) (back c : Bytes) (pos : ℕ) (index : Index)
    → All IsRecord rs
    → c ≡ front ++ (encode_all rs ++ back)
    → pos ≡ length front
    → All (Live c) index
    → All (Live c) (index_from pos rs index)
unfolding encode_all index_from
All-Live-index_from front [] back c pos index h e p live = live
All-Live-index_from front (r ∷ rs) back c pos index h e p live =
    All-Live-index_from (front ++ encode r) rs back c (pos + length (encode r))
      (index_at pos r index) h.1 (e ∙ simp append_assoc)
      (omega (arith, length-append front (encode r))) (here r h.0 (e ∙ append_assoc_in r))
  where
    append_assoc_in :
        (r : LogRecord)
        → front ++ ((encode r ++ encode_all rs) ++ back)
          ≡ front ++ (encode r ++ (encode_all rs ++ back))
    append_assoc_in r = simp append_assoc

    here :
        (r : LogRecord)
        → IsRecord r
        → c ≡ front ++ (encode r ++ (encode_all rs ++ back))
        → All (Live c) (index_at pos r index)
    here (LogRecord.del key) hr e = All-erase (Live c) key index live
    here (LogRecord.set key value) hr e =
        All-assign (Live c) key _ index (hr.0, (value, found, hr.1)) live
      where
        found :
            read_at c
              (record { value_pos = pos + length (set_header key value); value_len = length value })
            ≡ some value
        found = rw (p, e) (read_at-encode front (encode_all rs ++ back) key value hr.1.0)

Distinct-index_from :
    (rs : List LogRecord) (pos : ℕ) (index : Index)
    → Distinct index
    → Distinct (index_from pos rs index)
unfolding index_from
Distinct-index_from [] pos index d = d
Distinct-index_from (LogRecord.set key value ∷ rs) pos index d =
    Distinct-index_from rs _ _ (Distinct-assign key _ index d)
Distinct-index_from (LogRecord.del key ∷ rs) pos index d =
    Distinct-index_from rs _ _ (Distinct-erase key index d)

-- The log that compaction writes means the same as the log that it replaces.
pub record Compacted (rs ss : List LogRecord) : Type 0 where
  pub records : All IsRecord ss
  pub same : (k : Bytes) → view ss k ≡ view rs k

adopted :
    (out : Bytes) (index : Index) (f : Output) (d : DiskStore)
    → f.calls ≡ []
    → ((adopt out index f d).ok ≡ true)
      × ((adopt out index f d).file.contents ≡ out)
      × ((adopt out index f d).index ≡ index)
unfolding adopt open_file call
adopted out index f d h = ground arith

live_log : DiskStore → List LogRecord
live_log d = live d.file.contents d.index

module _ (d : DiskStore) (rs : List LogRecord) (h : IsLogged d rs) where
  All-Live : All (Live d.file.contents) d.index
  All-Live = subst (All (Live d.file.contents)) (sym h.index) (
      All-Live-index_from [] rs [] d.file.contents 0 [] h.records
        (h.contents ∙ sym (append-nil (encode_all rs))) refl tt)

  live_log-Compacted : Compacted rs (live_log d)
  unfolding live_log
  live_log-Compacted = record {
    records = live-records d.file.contents d.index All-Live;
    same = λ k.
        view_from-live d.file.contents d.index k none All-Live
          (subst Distinct (sym h.index) (Distinct-index_from rs 0 [] tt))
        ∙ (unfold look in look-IsLogged d rs k h);
  }

  gather-live_log :
      gather d.file.contents d.index [] []
      ≡ (encode_all (live_log d), index_from 0 (live_log d) [], true)
  unfolding live_log
  gather-live_log = unfold encode_all index_from in gather-live d.file.contents d.index [] All-Live

  -- The temporary file, and its flush.
  abbrev flushed : Output × Bool
  flushed =
      write_flush (encode_all (live_log d)) (record (d.file) { contents = []; is_open = true })

  abbrev behind : Output
  behind = record (d.file) { outcomes = flushed.0.outcomes }

  module _ (calls : d.file.calls ≡ []) where
    call_succeeds : call d.file ≡ (d.file, true)
    unfolding call
    call_succeeds = rw (calls, call)

    compact_done :
        flushed.1 ≡ true
        → compact d ≡ adopt (encode_all (live_log d)) (index_from 0 (live_log d) []) behind d
    unfolding compact
    compact_done e = rw (call_succeeds, gather-live_log, e)

    compact_abandoned : flushed.1 ≡ false → compact d ≡ record d { file = behind }
    unfolding compact
    compact_abandoned e = rw (call_succeeds, gather-live_log, e)

    -- Of a store that is up, whose file is a log, and whose calls of the file system succeed: whether the
    -- compaction goes through or its flush fails, the store is up and its file is a log
    -- that means what the log before it meant.
    pub compact-IsLogged :
        d.ok ≡ true
        → ((compact d).ok ≡ true)
          × ((ss : List LogRecord) × IsLogged (compact d) ss
              × ((k : Bytes) → view ss k ≡ view rs k))
    compact-IsLogged good = elim (Bool-cases flushed.1) [
      | inl e ↦
          let (up, written, indexed) =
            adopted (encode_all (live_log d)) (index_from 0 (live_log d) []) behind d calls in
          rw (compact_done e) (
            up,
            (
              live_log d,
              record { contents = written; records = live_log-Compacted.records; index = indexed },
              live_log-Compacted.same,
            ),
          )
      | inr e ↦ rw (compact_abandoned e) (
        good,
        (rs, record { contents = h.contents; records = h.records; index = h.index }, λ k. refl),
      )
    ]
