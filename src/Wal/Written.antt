-- ===== src/Wal/Written.antt =====
-- The log of src/wal.cpp behind `append_set` and `append_del`: which records its bytes are.
use redon.Prelude.{
  ℕ, ◌≡◌, refl, ap, sym, ◌∙◌, Bool, true, false, List, [], ◌∷◌, ◌++◌, ◌⊎◌, inl, inr, arith, take,
  Bool-cases,
}
use redon.Output.{write_flush}
use redon.Output.Flush.{write_flush_all, write_flush_part}
use redon.Wal.{LogRecord, Wal, encode, append_record}
use redon.Wal.Format.{IsRecord}
use redon.Wal.Replay.{encode_all, encode_all-concat}

-- A log that takes records holds `records`; one that has failed holds a part of one more behind them.
abbrev pub Written : Wal → List LogRecord → Type 0
Written w records =
    ((w.ok ≡ true) × (w.file.contents ≡ encode_all records))
    ⊎ ((w.ok ≡ false)
        × ((r : LogRecord) × IsRecord r
            × ((n : ℕ) × (w.file.contents ≡ encode_all records ++ take n (encode r)))))

-- What an append reports: the record is behind the others, or the log holds what it held.
abbrev pub Appended : List LogRecord → LogRecord → Wal × Bool → Type 0
Appended records r (w, good) =
    ((good ≡ true) × Written w (records ++ r ∷ [])) ⊎ ((good ≡ false) × Written w records)

append_good :
    (r : LogRecord) (w : Wal)
    → w.ok ≡ true
    → (write_flush (encode r) w.file).1 ≡ true
    → append_record r w ≡ (record w { file = (write_flush (encode r) w.file).0 }, true)
unfolding append_record
append_good r w ok good = ground (arith, ok, good)

append_bad :
    (r : LogRecord) (w : Wal)
    → w.ok ≡ true
    → (write_flush (encode r) w.file).1 ≡ false
    → append_record r w ≡ (record { file = (write_flush (encode r) w.file).0; ok = false }, false)
unfolding append_record
append_bad r w ok bad = ground (arith, ok, bad)

append_ok :
    (r : LogRecord) (w : Wal) (records : List LogRecord)
    → IsRecord r
    → w.ok ≡ true
    → w.file.contents ≡ encode_all records
    → Appended records r (append_record r w)
append_ok r w records h ok holds = elim (Bool-cases (write_flush (encode r) w.file).1) [
  | inl good ↦ rw (append_good r w ok good) (
      inl (
        refl,
        inl (
          ok,
          write_flush_all (encode r) w.file good
              ∙ ap (λ s. s ++ encode r) holds
              ∙ sym (encode_all-concat records r),
        ),
      ))
  | inr bad ↦
      let (n, part) = write_flush_part (encode r) w.file bad in
      rw (append_bad r w ok bad)
        (inr (refl, inr (refl, (r, h, (n, part ∙ ap (λ s. s ++ take n (encode r)) holds)))))
]

append_failed : (r : LogRecord) (w : Wal) → w.ok ≡ false → append_record r w ≡ (w, false)
unfolding append_record
append_failed r w e = ground (arith, e)

pub append_record-Appended :
    (r : LogRecord) (w : Wal) (records : List LogRecord)
    → IsRecord r
    → Written w records
    → Appended records r (append_record r w)
append_record-Appended r w records h (inl (ok, holds)) = append_ok r w records h ok holds
append_record-Appended r w records h (inr (failed, rest)) =
    rw (append_failed r w failed) (inr (refl, inr (failed, rest)))
