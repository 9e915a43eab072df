-- ===== src/Storage/Replay.antt =====
-- `replay_into` of src/wal.cpp over the store: replay mode on, the loop, replay mode off.
use native.Mathlib.Nat.{zero-add}
use redon.Prelude.{
  ℕ, zero, suc, ◌≡◌, refl, ap, ◌∙◌, Bool, true, false, Bytes, List, [], ◌∷◌, ◌++◌, foldl, none,
  arith, All, length, length-append,
}
use redon.Assoc.{find}
use redon.Wal.{LogRecord, read_record, replay_loop}
use redon.Wal.Format.{IsRecord}
use redon.Wal.Replay.{encode_all, length-encode_all, replay_loop-encode_all}
use redon.Wal.View
use redon.Wal.View.{view_record, view_from}
use redon.Storage.{Storage, new_storage, set, del, set_replaying, evict_loop, over_capacity}
use redon.Storage.Unbounded.{IsUnbounded, set-IsUnbounded, del-IsUnbounded, find-set, find-del}
use redon.Storage.Keeps.{new_storage-IsValid}
use redon.Storage.Lru.{entries}
use redon.Storage.Lru.Refines.{view}

-- `store.set` and `store.del`, whose results the replay ignores.
unfoldable pub apply_record : LogRecord → Storage → Storage
apply_record (LogRecord.set key value) s = (set key value s).0
apply_record (LogRecord.del key) s = (del key s).0

-- The log holds `contents`; the second component is the number of records applied. Each record takes
-- a byte, so the length of the log is fuel enough.
unfoldable pub replay_into : Bytes → Storage → Storage × ℕ
replay_into contents s =
    let (s', applied) =
      replay_loop apply_record (length contents) contents (set_replaying true s) 0 in
    (set_replaying false s', applied)

abbrev Loading : Storage → Type 0
Loading = IsUnbounded true

abbrev Applied : LogRecord → Storage → Type 0
Applied r s =
    Loading (apply_record r s)
    × ((k : Bytes) → find k (view (apply_record r s)) ≡ view_record r k (find k (view s)))

apply_record-Applied : (r : LogRecord) (s : Storage) → Loading s → Applied r s
unfolding apply_record
apply_record-Applied (LogRecord.set key value) s h =
    (set-IsUnbounded true key value s h, λ k. find-set true key value k s h)
apply_record-Applied (LogRecord.del key) s h =
    (del-IsUnbounded true key s h, λ k. find-del true key k s h)

apply_all :
    (rs : List LogRecord) (s : Storage)
    → Loading s
    → Loading (foldl (λ t r. apply_record r t) s rs)
      × ((k : Bytes)
          → find k (view (foldl (λ t r. apply_record r t) s rs)) ≡ view_from rs k (find k (view s)))
unfolding view_from
apply_all [] s h = (h, λ k. refl)
apply_all (r ∷ rs) s h =
    let (loading, here) = apply_record-Applied r s h in
    let (loaded, there) = apply_all rs (apply_record r s) loading in
    (loaded, λ k. there k ∙ ap (view_from rs k) (here k))

new_storage-Loading : Loading (set_replaying true (new_storage 0))
unfolding set_replaying new_storage
new_storage-Loading = record {
  valid = new_storage-IsValid 0;
  alone = record { disk = refl; wal = refl; mode = refl; bound = refl };
}

-- Leaving replay mode evicts nothing from an unbounded cache.
loop_idle :
    (test : Storage → Bool) (log : Bool) (fuel : ℕ) (s : Storage)
    → test s ≡ false
    → evict_loop test log fuel s ≡ s
unfolding evict_loop
loop_idle test log zero s e = refl
loop_idle test log (suc fuel) s e = rw e refl

leave : (s : Storage) → Loading s → set_replaying false s ≡ record s { replaying = false }
unfolding set_replaying over_capacity
leave s h =
    loop_idle over_capacity false (length s.index) (record s { replaying = false })
      (ground (arith, h.alone.bound))

-- An unbounded store that starts over a log of complete records with an unreadable tail holds, for
-- every key, what the records mean, and counts the records that it applied.
pub replay_into-view :
    (rs : List LogRecord) (tail : Bytes)
    → All IsRecord rs
    → read_record tail ≡ none
    → let r = replay_into (encode_all rs ++ tail) (new_storage 0) in
      (r.1 ≡ length rs) × ((k : Bytes) → find k (view r.0) ≡ View.view rs k)
unfolding replay_into set_replaying new_storage entries find
replay_into-view rs tail h torn =
    let input = encode_all rs ++ tail in
    let s = set_replaying true (new_storage 0) in
    let (loaded, seen) = apply_all rs s new_storage-Loading in
    rw
      (replay_loop-encode_all apply_record rs tail (length input) s 0 h torn
        (omega (arith, length-encode_all rs, length-append (encode_all rs) tail)))
      (zero-add (length rs), λ k. ap (λ t. find k (entries t.items)) (leave _ loaded) ∙ seen k)

-- What the replay leaves, whatever the log holds.
pub replay_into-IsUnbounded :
    (rs : List LogRecord) (tail : Bytes)
    → All IsRecord rs
    → read_record tail ≡ none
    → IsUnbounded false (replay_into (encode_all rs ++ tail) (new_storage 0)).0
unfolding replay_into set_replaying new_storage
replay_into-IsUnbounded rs tail h torn =
    let input = encode_all rs ++ tail in
    let s = set_replaying true (new_storage 0) in
    rw
      (replay_loop-encode_all apply_record rs tail (length input) s 0 h torn
        (omega (arith, length-encode_all rs, length-append (encode_all rs) tail)))
      (left (foldl (λ t r. apply_record r t) s rs) (apply_all rs s new_storage-Loading).0)
  where
    left : (u : Storage) → Loading u → IsUnbounded false (set_replaying false u)
    left u l = rw (leave u l) (record {
      valid = l.valid;
      alone = record { disk = l.alone.disk; wal = l.alone.wal; mode = refl; bound = l.alone.bound };
    })
