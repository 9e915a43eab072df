-- ===== src/Wal/Torn.antt =====
-- What src/wal.cpp makes of writes behind a record that was cut short: the replay does not remove the
-- cut bytes, and `open_for_append` writes behind them.
use native.Mathlib.Nat.{zero-add}
use redon.Prelude.{
  ℕ, zero, suc, ◌≤◌, ◌<◌, ◌≡◌, refl, ap, sym, ◌∙◌, true, Bytes, List, [], ◌++◌, foldl, none, codes,
  append_assoc, append-nil, arith, take, length, length-append, All, bytes_eq,
}
use redon.Text.{is_space, skip_space, span_token}
use redon.Text.Span.{span}
use redon.Stream.{◌>>=◌, read_token, fail}
use redon.Output.Flush.{write_flush_all}
use redon.Wal.{Wal, append_record, append_set, LogRecord, encode, read_op, read_record, replay_loop}
use redon.Wal.Format.{IsRecord}
use redon.Wal.Replay.{encode_all, replay_loop-encode_all, length-encode_all}

-- The first bytes of a record, fewer than its operation with the blank behind it.
abbrev pub cut : ℕ → Bytes
cut n = take n (codes "SET")

-- A word glued from the cut and the operation of the next record is no operation.
glued :
    (n : ℕ) (r : LogRecord) (more : Bytes)
    → 0 < n
    → n ≤ 3
    → read_record (cut n ++ (encode r ++ more)) ≡ none
unfolding read_record ◌>>=◌ read_token read_op bytes_eq span_token skip_space span is_space encode
    fail
glued zero r more pos le = absurd (omega arith)
glued (suc zero) (LogRecord.set key value) more pos le = refl
glued (suc zero) (LogRecord.del key) more pos le = refl
glued (suc (suc zero)) (LogRecord.set key value) more pos le = refl
glued (suc (suc zero)) (LogRecord.del key) more pos le = refl
glued (suc (suc (suc zero))) (LogRecord.set key value) more pos le = refl
glued (suc (suc (suc zero))) (LogRecord.del key) more pos le = refl
glued (suc (suc (suc (suc n)))) r more pos le = absurd (omega arith)

append_set_done :
    (key value : Bytes) (w : Wal)
    → (append_set key value w).1 ≡ true
    → (append_set key value w).0.file.contents ≡ w.file.contents ++ encode (LogRecord.set key value)
unfolding append_set append_record
append_set_done key value w done =
    ground (arith, write_flush_all (encode (LogRecord.set key value)) w.file)

-- A log that ends in one to three bytes of a record that was cut short, as a crash can leave it, takes
-- an append and acknowledges it, but a replay of the log then applies the records before the cut only:
-- the acknowledged write is lost.
pub acknowledged_set_lost :
    {S : Type 0} (apply : LogRecord → S → S) (rs : List LogRecord) (n : ℕ) (key value : Bytes)
    (w : Wal) (s : S)
    → All IsRecord rs
    → 0 < n
    → n ≤ 3
    → w.file.contents ≡ encode_all rs ++ cut n
    → (append_set key value w).1 ≡ true
    → let input = (append_set key value w).0.file.contents in
      replay_loop apply (length input) input s 0 ≡ (foldl (λ t r. apply r t) s rs, length rs)
acknowledged_set_lost apply rs n key value w s h pos le e done =
    let r = LogRecord.set key value in
    let tail = cut n ++ encode r in
    let torn : read_record tail ≡ none =
      ap (λ t. read_record (cut n ++ t)) (sym (append-nil (encode r))) ∙ glued n r [] pos le in
    let written : (append_set key value w).0.file.contents ≡ encode_all rs ++ tail =
      append_set_done key value w done
      ∙ ap (λ c. c ++ encode r) e
      ∙ append_assoc (encode_all rs) (cut n) (encode r) in
    rw written (
      replay_loop-encode_all apply rs tail (length (encode_all rs ++ tail)) s 0 h torn
        (omega (arith, length-encode_all rs, length-append (encode_all rs) tail))
      ∙ ap (λ k. (foldl (λ t q. apply q t) s rs, k)) (zero-add (length rs)))
