-- ===== src/Storage/Journal.antt =====
-- The store of src/storage.cpp over its log, src/wal.cpp: what the methods write there and what they
-- change, side by side.
pub mod Commands
use mathlib.Core.Path.{subst}
use mathlib.Core.Option.{some-injective}
use redon.Prelude.{
  ℕ, zero, suc, ◌≡◌, ◌⊎◌, refl, ap, sym, ◌∙◌, Bool, true, false, not, ◌&&◌, Bytes, List, [], ◌∷◌,
  ◌++◌, Option, none, some, arith, All, All-append, bytes_eq, bytes_eq_iff, if◌then◌else◌,
  Bool-cases, Option-cases, inl, inr,
}
use redon.Assoc.{find, erase, find-erase}
use redon.Wal.{LogRecord, Wal, append_set, append_del, append_record}
use redon.Wal.Format.{IsRecord}
use redon.Wal.View.{view_record, view_from, view-concat}
use redon.Wal.Written.{Written, Appended, append_record-Appended}
use redon.Storage.{
  Node, Storage, back, log_set, log_del, replicate_set, replicate_del, drop_back, evict_lru_locked,
  evict_loop, set_existing, insert_front, set_new, set_logged, set_memory, set, get_memory, get,
  del_memory, del, over_capacity,
}
use redon.Storage.Nodes.{find_node, pop_back-erase_key}
use redon.Storage.Valid.{
  IsValid, SameCache-IsValid, SameCache-log_set, evict_true, evict_false, evict-IsValid, index_miss,
  index_hit,
}
use redon.Storage.Unbounded.{find-touch}
use redon.Storage.Lru.{entries, entries-erase_key, find-entries, value_of}
use redon.Storage.Lru.Refines.{view, existing_view, inserted_view, inserted-IsValid, set_in_memory}
use redon.Storage.Lru.Reads.{
  used, get-used, del_in_memory, del_memory-miss, del_logged, del-Deleted,
}
use redon.Storage.Keeps.{set-IsValid, get-IsValid, del-IsValid}
use redon.Wal.View

-- An in-memory store whose log says what its map is, with fields that the log's reader takes.
pub record IsJournal (s : Storage) : Type 0 where
  pub valid : IsValid s
  pub memory : s.disk ≡ none
  pub sized : (k v : Bytes) → find k (view s) ≡ some v → IsRecord (LogRecord.set k v)
  pub wal : Wal
  pub at : s.wal ≡ some wal
  pub records : List LogRecord
  pub are : All IsRecord records
  pub written : Written wal records
  pub seen : (k : Bytes) → find k (view s) ≡ View.view records k

-- The log of a store behind an append.
pub Logged : List LogRecord → LogRecord → Option Wal → Bool → Type 0
Logged records r o good =
    (w : Wal) × (o ≡ some w)
    × (((good ≡ true) × Written w (records ++ r ∷ [])) ⊎ ((good ≡ false) × Written w records))

pub log_set-Logged :
    (key value : Bytes) (s : Storage) (h : IsJournal s)
    → IsRecord (LogRecord.set key value)
    → Logged h.records (LogRecord.set key value) (log_set key value s).0.wal (log_set key value s).1
unfolding log_set append_set Logged
log_set-Logged key value s h is =
    rw (h.at, log_set)
      (
        (append_record (LogRecord.set key value) h.wal).0,
        refl,
        append_record-Appended (LogRecord.set key value) h.wal h.records is h.written,
      )

pub log_del-Logged :
    (key : Bytes) (s : Storage) (h : IsJournal s)
    → IsRecord (LogRecord.del key)
    → Logged h.records (LogRecord.del key) (log_del key s).0.wal (log_del key s).1
unfolding log_del append_del Logged
log_del-Logged key s h is =
    rw (h.at, log_del)
      (
        (append_record (LogRecord.del key) h.wal).0,
        refl,
        append_record-Appended (LogRecord.del key) h.wal h.records is h.written,
      )

pub sized-IsRecord :
    (r : LogRecord) (k v : Bytes) (o : Option Bytes)
    → IsRecord r
    → (o ≡ some v → IsRecord (LogRecord.set k v))
    → view_record r k o ≡ some v
    → IsRecord (LogRecord.set k v)
sized-IsRecord (LogRecord.set k' v') k v o c h = elim (Bool-cases (bytes_eq k' k)) [
  | inl e ↦ rw e (λ z. (
    subst (λ x. IsRecord (LogRecord.del x)) ((bytes_eq_iff k' k).0 e) c.0,
    subst (λ x. IsRecord (LogRecord.del x)) (some-injective v' v z) c.1,
  ))
  | inr e ↦ rw e h
]
sized-IsRecord (LogRecord.del k') k v o c h = elim (Bool-cases (bytes_eq k' k)) [
  | inl e ↦ rw e (λ z. absurd (ground arith))
  | inr e ↦ rw e h
]

module _ (s t : Storage) (h : IsJournal s) (valid : IsValid t) (memory : t.disk ≡ none) where
  -- Nothing new in the map or in the log's records.
  pub same-IsJournal :
      (w : Wal)
      → t.wal ≡ some w
      → Written w h.records
      → ((k : Bytes) → find k (view t) ≡ find k (view s))
      → IsJournal t
  same-IsJournal w at written seen = record {
    valid = valid;
    memory = memory;
    sized = λ k v e. h.sized k v (sym (seen k) ∙ e);
    wal = w;
    at = at;
    records = h.records;
    are = h.are;
    written = written;
    seen = λ k. seen k ∙ h.seen k;
  }

  -- One record more in the log, and its change in the map.
  next-IsJournal :
      (r : LogRecord) (w : Wal)
      → IsRecord r
      → t.wal ≡ some w
      → Written w (h.records ++ r ∷ [])
      → ((k : Bytes) → find k (view t) ≡ view_record r k (find k (view s)))
      → IsJournal t
  next-IsJournal r w is at written seen = record {
    valid = valid;
    memory = memory;
    sized = λ k v e. sized-IsRecord r k v (find k (view s)) is (h.sized k v) (sym (seen k) ∙ e);
    wal = w;
    at = at;
    records = h.records ++ r ∷ [];
    are = All-append IsRecord h.records (r ∷ []) h.are (is, tt);
    written = written;
    seen = λ k. seen k ∙ ap (view_record r k) (h.seen k) ∙ sym (view-concat h.records r k);
  }

  -- An append whose outcome decides between the two.
  pub Logged-IsJournal :
      (r : LogRecord) (good : Bool)
      → IsRecord r
      → Logged h.records r t.wal good
      → (good ≡ true → (k : Bytes) → find k (view t) ≡ view_record r k (find k (view s)))
      → (good ≡ false → (k : Bytes) → find k (view t) ≡ find k (view s))
      → IsJournal t
  unfolding Logged
  Logged-IsJournal r good is (w, at, inl (e, written)) yes_seen no_seen =
      next-IsJournal r w is at written (yes_seen e)
  Logged-IsJournal r good is (w, at, inr (e, written)) yes_seen no_seen =
      same-IsJournal w at written (no_seen e)

pub disk-log_set : (k v : Bytes) (s : Storage) → (log_set k v s).0.disk ≡ s.disk
unfolding log_set
disk-log_set k v s = ground arith

disk-evict : (s : Storage) → (evict_lru_locked true s).0.disk ≡ s.disk
unfolding evict_lru_locked log_del drop_back replicate_del
disk-evict s = ground arith

wal-evict :
    (s : Storage) (n : Node)
    → back s.items ≡ some n
    → ((evict_lru_locked true s).0.wal ≡ (log_del n.key s).0.wal)
      × ((evict_lru_locked true s).1 ≡ (log_del n.key s).1)
unfolding evict_lru_locked log_del drop_back replicate_del
wal-evict s n e = ground (arith, e)

evict_none : (s : Storage) → back s.items ≡ none → evict_lru_locked true s ≡ (s, false)
unfolding evict_lru_locked
evict_none s e = ground (arith, e)

evict-IsJournal : (s : Storage) → IsJournal s → IsJournal (evict_lru_locked true s).0
evict-IsJournal s h = elim (Option-cases (back s.items)) [
  | inl e ↦ rw (evict_none s e) h
  | inr (n, e) ↦
      let (wal, good) = wal-evict s n e in
      let (found, erased) = pop_back-erase_key s.items n h.valid.keys e in
      let is = (h.sized n.key n.value (find-entries n.key s.items ∙ ap value_of found)).0 in
      Logged-IsJournal s (evict_lru_locked true s).0 h (evict-IsValid true s h.valid)
        (disk-evict s ∙ h.memory) (LogRecord.del n.key) (evict_lru_locked true s).1 is
        (rw (wal, good) (log_del-Logged n.key s h is))
        (λ done k.
          let (m, last, d) = evict_true true s done in
          ap (λ l. find k (entries l)) (d.items ∙ erased)
          ∙ ap (find k) (entries-erase_key n.key s.items)
          ∙ find-erase n.key k (view s))
        (λ kept k. ap (λ l. find k (entries l)) (evict_false true s kept).items)
]

pub evict_loop-IsJournal :
    (test : Storage → Bool) (fuel : ℕ) (s : Storage)
    → IsJournal s
    → IsJournal (evict_loop test true fuel s)
unfolding evict_loop
evict_loop-IsJournal test zero s h = h
evict_loop-IsJournal test (suc fuel) s h =
    let one = evict-IsJournal s h in
    let rest = evict_loop-IsJournal test fuel (evict_lru_locked true s).0 one in
    elim (Bool-cases (test s)) [
      | inl e ↦ elim (Bool-cases (evict_lru_locked true s).1) [
        | inl e' ↦ rw (e, e') rest
        | inr e' ↦ rw (e, e') one
      ]
      | inr e ↦ rw e h
    ]
