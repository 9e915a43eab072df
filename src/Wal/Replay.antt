-- ===== src/Wal/Replay.antt =====
-- The loop of `Wal::replay_into` over a log.
use native.Mathlib.Nat.{add-zero, suc-add}
use redon.Prelude.{
  ℕ, zero, suc, ◌+◌, ◌≤◌, ◌<◌, ◌≡◌, refl, ap, sym, ◌∙◌, Bytes, List, [], ◌∷◌, ◌++◌, append_assoc,
  append-nil, foldl, none, some, arith, length, length-append, All, Option-cases, inl, inr,
}
use redon.Wal.{LogRecord, encode, read_record, replay_loop}
use redon.Wal.Format.{IsRecord, read_record-encode, read_record-length}

-- The bytes of a log that holds the records.
unfoldable pub encode_all : List LogRecord → Bytes
encode_all [] = []
encode_all (r ∷ rs) = encode r ++ encode_all rs

pub encode_all-append :
    (rs ss : List LogRecord) → encode_all (rs ++ ss) ≡ encode_all rs ++ encode_all ss
unfolding encode_all
encode_all-append [] ss = refl
encode_all-append (r ∷ rs) ss = rw (encode_all-append rs ss, append_assoc)

length-encode_pos : (r : LogRecord) → 0 < length (encode r)
unfolding encode
length-encode_pos (LogRecord.set key value) = omega arith
length-encode_pos (LogRecord.del key) = omega arith

pub encode_all-concat :
    (rs : List LogRecord) (r : LogRecord) → encode_all (rs ++ r ∷ []) ≡ encode_all rs ++ encode r
unfolding encode_all
encode_all-concat rs r =
    encode_all-append rs (r ∷ []) ∙ ap (λ s. encode_all rs ++ s) (append-nil (encode r))

pub length-encode_all : (rs : List LogRecord) → length rs ≤ length (encode_all rs)
unfolding encode_all
length-encode_all [] = omega arith
length-encode_all (r ∷ rs) =
    omega
      (arith, length-append (encode r) (encode_all rs), length-encode_pos r, length-encode_all rs)

module _ {ℓ} {S : Type ℓ} (apply : LogRecord → S → S) where
  replay_stop :
      (fuel : ℕ) (input : Bytes) (s : S) (n : ℕ)
      → read_record input ≡ none
      → replay_loop apply fuel input s n ≡ (s, n)
  unfolding replay_loop
  replay_stop zero input s n h = refl
  replay_stop (suc fuel) input s n h = rw (h, replay_loop)

  replay_step :
      (fuel : ℕ) (input rest : Bytes) (r : LogRecord) (s : S) (n : ℕ)
      → read_record input ≡ some (r, rest)
      → replay_loop apply (suc fuel) input s n ≡ replay_loop apply fuel rest (apply r s) (n + 1)
  unfolding replay_loop
  replay_step fuel input rest r s n h = rw (h, replay_loop)

  -- As much fuel as the input is long is enough for any input: more changes nothing.
  pub replay_loop_fuel :
      (fuel extra : ℕ) (input : Bytes) (s : S) (n : ℕ)
      → length input ≤ fuel
      → replay_loop apply (fuel + extra) input s n ≡ replay_loop apply fuel input s n
  replay_loop_fuel zero extra input s n h = elim (Option-cases (read_record input)) [
    | inl e ↦ replay_stop (zero + extra) input s n e ∙ sym (replay_stop zero input s n e)
    | inr ((r, rest), e) ↦ absurd (omega (arith, read_record-length input rest r e))
  ]
  replay_loop_fuel (suc fuel) extra input s n h = elim (Option-cases (read_record input)) [
    | inl e ↦ replay_stop (suc fuel + extra) input s n e ∙ sym (replay_stop (suc fuel) input s n e)
    | inr ((r, rest), e) ↦
        ap (λ f. replay_loop apply f input s n) (suc-add fuel extra)
        ∙ replay_step (fuel + extra) input rest r s n e
        ∙ replay_loop_fuel fuel extra rest (apply r s) (n + 1)
            (omega (arith, read_record-length input rest r e))
        ∙ sym (replay_step fuel input rest r s n e)
  ]

  -- On a log of complete records with an unreadable tail, the loop applies the records in order.
  pub replay_loop-encode_all :
      (rs : List LogRecord) (tail : Bytes) (fuel : ℕ) (s : S) (n : ℕ)
      → All IsRecord rs
      → read_record tail ≡ none
      → length rs ≤ fuel
      → replay_loop apply fuel (encode_all rs ++ tail) s n
        ≡ (foldl (λ t r. apply r t) s rs, n + length rs)
  unfolding encode_all
  replay_loop-encode_all [] tail fuel s n h torn enough =
      rw (add-zero n) (replay_stop fuel tail s n torn)
  replay_loop-encode_all (r ∷ rs) tail zero s n h torn enough = absurd (omega arith)
  replay_loop-encode_all (r ∷ rs) tail (suc fuel) s n h torn enough = rw append_assoc (
      replay_step fuel _ (encode_all rs ++ tail) r s n
        (read_record-encode r (encode_all rs ++ tail) h.0)
      ∙ replay_loop-encode_all rs tail fuel (apply r s) (n + 1) h.1 torn (omega arith)
      ∙ ap (λ m. (foldl (λ t r'. apply r' t) (apply r s) rs, m)) (omega arith))
