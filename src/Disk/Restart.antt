-- ===== src/Disk/Restart.antt =====
-- A restart: the constructor of src/disk_store.cpp over a file of complete records with an unreadable
-- tail, which is what a crash or a failed write leaves.
use mathlib.Core.Path.{subst}
use native.Mathlib.Nat.{zero-add}
use redon.Prelude.{
  ℕ, ◌-◌, ◌≡◌, refl, ap, sym, ◌∙◌, Bytes, List, [], ◌∷◌, ◌++◌, append-nil, Option, none, arith,
  length, length-append, All, take, take-append_length, true, false, Bool, if◌then◌else◌,
}
use redon.Output.{Output, call, open_file}
use redon.Wal.{LogRecord, read_record}
use redon.Wal.Format.{IsRecord}
use redon.Wal.Replay.{encode_all, length-encode_all}
use redon.Wal.View.{view}
use redon.Disk.{DiskStore, get}
use redon.Disk.Recover.{scan_loop, heal, compact, choice, after_scan, recover, open_store}
use redon.Disk.Recovery.{index_from, scan_loop-encode_all}
use redon.Disk.Logged.{IsLogged, get-IsLogged}
use redon.Disk.Compact.{compact-IsLogged}

take_front : (s t : Bytes) → take (length (s ++ t) - length t) (s ++ t) ≡ s
take_front s t =
    ap (λ n. take n (s ++ t)) (omega (arith, length-append s t)) ∙ take-append_length s t

heal_lem :
    (d : DiskStore) (s tail : Bytes)
    → d.file.contents ≡ s ++ tail
    → d.file.calls ≡ []
    → d.ok ≡ true
    → ((heal tail d).file.contents ≡ s)
      × ((heal tail d).file.calls ≡ [])
      × ((heal tail d).ok ≡ true)
      × ((heal tail d).index ≡ d.index)
unfolding heal open_file call
heal_lem d s [] e calls good = (e ∙ append-nil s, calls, good, refl)
heal_lem d s (b ∷ tail) e calls good = ground (arith, take_front s (b ∷ tail))

abbrev pub Restarted : DiskStore → List LogRecord → Type 0
Restarted d rs =
    (d.ok ≡ true) × ((ss : List LogRecord) × IsLogged d ss × ((k : Bytes) → view ss k ≡ view rs k))

choice_up :
    (wasteful : Bool) (d : DiskStore)
    → d.ok ≡ true
    → choice wasteful d ≡ (if wasteful then compact d else d)
unfolding choice
choice_up wasteful d up = ground arith

choice-Restarted :
    (wasteful : Bool) (d : DiskStore) (rs : List LogRecord)
    → IsLogged d rs
    → d.file.calls ≡ []
    → d.ok ≡ true
    → Restarted (choice wasteful d) rs
choice-Restarted true d rs h calls up =
    subst (λ e. Restarted e rs) (sym (choice_up true d up)) (compact-IsLogged d rs h calls up)
choice-Restarted false d rs h calls up =
    subst (λ e. Restarted e rs) (sym (choice_up false d up)) (up, (rs, h, λ k. refl))

after_scan_lem :
    (d : DiskStore) (rs : List LogRecord) (tail : Bytes)
    → d.file.contents ≡ encode_all rs ++ tail
    → d.file.calls ≡ []
    → d.ok ≡ true
    → All IsRecord rs
    → Restarted (after_scan (index_from 0 rs [], tail) d) rs
unfolding after_scan
after_scan_lem d rs tail e calls good h =
    let healed = heal tail (record d { index = index_from 0 rs [] }) in
    let (contents, calls', up, index) =
      heal_lem (record d { index = index_from 0 rs [] }) (encode_all rs) tail e calls good in
    choice-Restarted _ healed rs (record { contents = contents; records = h; index = index }) calls'
      up

-- A data file on a disk whose calls succeed from now on.
abbrev pub data_file : Bytes → List (Option ℕ) → Output
data_file contents outcomes = record {
  contents = contents;
  outcomes = outcomes;
  calls = [];
  is_open = false;
}

-- Where the file holds complete records and behind them bytes that are no complete record, the
-- restarted store is up, its file is a log again, and every `get` returns what the records mean. This
-- covers the healing of the tail and the compaction, whether or not its flush succeeds. It needs that
-- the calls that open, resize and rename files succeed.
pub open_store-Restarted :
    (rs : List LogRecord) (tail : Bytes) (outcomes : List (Option ℕ))
    → All IsRecord rs
    → read_record tail ≡ none
    → let d = open_store (data_file (encode_all rs ++ tail) outcomes) in
      Restarted d rs × ((k : Bytes) → get k d ≡ view rs k)
open_store-Restarted rs tail outcomes h torn =
    let contents = encode_all rs ++ tail in
    let d : DiskStore = record {
      file = record { contents = contents; outcomes = outcomes; calls = []; is_open = true };
      index = [];
      ok = true;
    } in
    let scan : scan_loop (length contents) (length contents) contents []
        ≡ (index_from 0 rs [], tail) =
      ap (λ n. scan_loop n (length contents) contents []) (sym (zero-add (length contents)))
      ∙ scan_loop-encode_all rs tail 0 (length contents) [] h torn
          (omega (arith, length-encode_all rs, length-append (encode_all rs) tail)) in
    let opened : open_store (data_file contents outcomes)
        ≡ after_scan (index_from 0 rs [], tail) d =
      (unfold open_store recover open_file call in ap (λ r. after_scan r d) scan) in
    let again : Restarted (open_store (data_file contents outcomes)) rs =
      subst (λ e. Restarted e rs) (sym opened) (after_scan_lem d rs tail refl refl refl h) in
    (
      again,
      λ k.
          get-IsLogged (open_store (data_file contents outcomes)) again.1.0 k again.1.1 again.0
          ∙ again.1.2 k,
    )
