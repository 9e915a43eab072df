-- ===== src/Wal/Format.antt =====
-- The record format of src/wal.h: whole records and records that a crash cut short.
use redon.Prelude.{
  ℕ, ◌≤◌, ◌<◌, ◌≡◌, refl, ap, ◌∙◌, true, Bytes, [], ◌∷◌, ◌++◌, none, some, codes, arith, bytes_eq,
  Bool-cases, Option-cases, inl, inr, length, length-append, take, drop, length-drop,
  take-append-drop,
}
use redon.Text.{is_space, skip_space, span_token}
use redon.Text.Span.{span}
use redon.Text.Decimal.{is_digit, to_string}
use redon.Stream
use redon.Stream.{◌>>=◌, ◌>>◌, guard, fail, read_token, read_number, expect, read_bytes}
use redon.Stream.Local.{
  IsLocal, IsEager, IsLocal-bind, IsLocal-bind_delimited, IsEager-bind, IsLocal-pure, IsLocal-fail,
  IsLocal-guard, IsLocal-expect, IsEager-expect, IsLocal-read_bytes, bind-eq-some, bind_step,
  IsEager-guard_bind,
}
use redon.Stream.Scan.{
  IsEager-read_number, IsDelimited-read_number, IsDelimited-read_token, read_token-length,
  read_number-to_string, read_bytes-append,
}
use redon.Wal.{LogRecord, encode, max_field, read_record, read_set, read_del, read_op, sane}

-- A field that the log can hold: not empty, and not longer than `kMaxField`.
abbrev pub IsField : Bytes → Type 0
IsField s = (0 < length s) × (length s ≤ max_field)

abbrev pub IsRecord : LogRecord → Type 0
IsRecord (LogRecord.set key value) = IsField key × IsField value
IsRecord (LogRecord.del key) = IsField key

sane_field : (s : Bytes) → IsField s → sane (length s) ≡ true
sane_field s h = ground arith

ruleset local_rules = (
  IsLocal-bind, IsLocal-bind_delimited, IsEager-bind, IsLocal-pure, IsLocal-fail, IsLocal-guard,
  IsLocal-expect, IsEager-expect, IsLocal-read_bytes, IsEager-read_number, IsDelimited-read_number,
  IsEager-guard_bind,
)

read_set-IsLocal : IsLocal read_set
unfolding read_set
read_set-IsLocal = search local_rules depth 12

read_del-IsLocal : IsLocal read_del
unfolding read_del
read_del-IsLocal = search local_rules depth 12

read_op-IsLocal : (op : Bytes) → IsLocal (read_op op)
unfolding read_op
read_op-IsLocal op = elim (Bool-cases (bytes_eq op (codes "SET"))) [
  | inl e ↦ rw e read_set-IsLocal
  | inr e ↦ rw e (elim (Bool-cases (bytes_eq op (codes "DEL"))) [
    | inl e' ↦ rw e' read_del-IsLocal
    | inr e' ↦ rw e' IsLocal-fail
  ])
]

read_op-IsEager : (op : Bytes) → IsEager (read_op op)
unfolding read_op fail
read_op-IsEager op = record { at_end = ground (arith, set_end.at_end, del_end.at_end) }
  where
    set_end : IsEager read_set
    set_end = unfold read_set in search local_rules

    del_end : IsEager read_del
    del_end = unfold read_del in search local_rules

read_record-IsLocal : IsLocal read_record
unfolding read_record
read_record-IsLocal =
    IsLocal-bind_delimited read_token read_op IsDelimited-read_token read_op-IsLocal read_op-IsEager

pub read_record-append :
    (s t rest : Bytes) (r : LogRecord)
    → read_record s ≡ some (r, rest)
    → read_record (s ++ t) ≡ some (r, rest ++ t)
read_record-append s t rest r = read_record-IsLocal.at s t r rest

-- Every record takes at least a byte.
pub read_record-length :
    (s rest : Bytes) (r : LogRecord) → read_record s ≡ some (r, rest) → length rest < length s
unfolding read_record
read_record-length s rest r h =
    let (op, more, e, e') = bind-eq-some read_token read_op s r rest h in
    omega (arith, read_token-length s op more e, (read_op-IsLocal op).shorter more r rest e')

read_set-fields :
    (key value rest : Bytes)
    → IsField key
    → IsField value
    → read_set (
        b' '
        ∷ (to_string (length key)
            ++ b' ' ∷ (to_string (length value) ++ b' ' ∷ (key ++ (value ++ b'\n' ∷ rest)))))
      ≡ some (LogRecord.set key value, rest)
unfolding read_set ◌>>=◌ guard expect Stream.pure is_digit
read_set-fields key value rest hk hv = rw (
  read_number-to_string (length key) b' '
      (to_string (length value) ++ b' ' ∷ (key ++ (value ++ b'\n' ∷ rest))) (omega arith) refl,
  read_number-to_string (length value) b' ' (key ++ (value ++ b'\n' ∷ rest)) (omega arith) refl,
  sane_field key hk,
  sane_field value hv,
  read_bytes-append,
  read_bytes-append,
)

read_del-fields :
    (key rest : Bytes)
    → IsField key
    → read_del (b' ' ∷ (to_string (length key) ++ b' ' ∷ (key ++ b'\n' ∷ rest)))
      ≡ some (LogRecord.del key, rest)
unfolding read_del ◌>>=◌ guard expect Stream.pure is_digit
read_del-fields key rest hk = rw (
  read_number-to_string (length key) b' ' (key ++ b'\n' ∷ rest) (omega arith) refl,
  sane_field key hk,
  read_bytes-append,
)

token_set : (s : Bytes) → read_token (codes "SET " ++ s) ≡ some (codes "SET", b' ' ∷ s)
unfolding read_token skip_space span_token span is_space
token_set s = refl

token_del : (s : Bytes) → read_token (codes "DEL " ++ s) ≡ some (codes "DEL", b' ' ∷ s)
unfolding read_token skip_space span_token span is_space
token_del s = refl

read_record_alone : (r : LogRecord) → IsRecord r → read_record (encode r) ≡ some (r, [])
unfolding encode read_record
read_record_alone (LogRecord.set key value) h =
    bind_step read_token read_op _ (codes "SET") _ (token_set _)
    ∙ (unfold read_op bytes_eq in read_set-fields key value [] h.0 h.1)
read_record_alone (LogRecord.del key) h =
    bind_step read_token read_op _ (codes "DEL") _ (token_del _)
    ∙ (unfold read_op bytes_eq in read_del-fields key [] h)

-- A record whose fields are not empty and at most 256 MB long is read back from what the appends
-- write for it, whatever bytes follow.
pub read_record-encode :
    (r : LogRecord) (rest : Bytes) → IsRecord r → read_record (encode r ++ rest) ≡ some (r, rest)
read_record-encode r rest h = read_record-append (encode r) rest [] r (read_record_alone r h)

split_reads_nothing :
    (s t : Bytes) (r : LogRecord)
    → read_record (s ++ t) ≡ some (r, [])
    → 0 < length t
    → read_record s ≡ none
split_reads_nothing s t r whole pos = elim (Option-cases (read_record s)) [
  | inl e ↦ e
  | inr ((r', rest), e) ↦
      let more = read_record-append s t rest r' e in
      let ended : rest ++ t ≡ [] = cc (more, whole) in
      absurd (omega (arith, ap length ended, length-append rest t))
]

-- A record that is cut short anywhere is not read.
pub read_record_torn :
    (r : LogRecord) (n : ℕ)
    → IsRecord r
    → n < length (encode r)
    → read_record (take n (encode r)) ≡ none
read_record_torn r n h short =
    split_reads_nothing (take n (encode r)) (drop n (encode r)) r
      (ap read_record (take-append-drop n (encode r)) ∙ read_record_alone r h)
      (omega (arith, length-drop n (encode r)))
