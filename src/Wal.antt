-- ===== src/Wal.antt =====
-- src/wal.h and src/wal.cpp: the log's record format, the two appends and the replay loop.
pub mod Written
pub mod Format
pub mod Replay
pub mod View
pub mod Torn
use redon.Prelude.{
  ℕ, zero, suc, ◌+◌, ◌*◌, Bool, true, false, ◌&&◌, ◌||◌, not, Bytes, [], ◌∷◌, ◌++◌, Option, none,
  some, codes, bytes_eq, ltb, ◌==◌, if◌then◌else◌, length,
}
use redon.Text.Decimal.{to_string}
use redon.Stream.{
  Reader, ◌>>=◌, ◌>>◌, pure, guard, fail, read_token, read_number, expect, read_bytes,
}
use redon.Output.{Output, write_flush, open_file}

abbrev pub max_field : ℕ
max_field = 256 * 1024 * 1024

pub data LogRecord : Type 0 where
  set : Bytes → Bytes → LogRecord
  del : Bytes → LogRecord

-- What `append_set` and `append_del` write for a record.
unfoldable pub encode : LogRecord → Bytes
encode (set key value) =
    codes "SET "
    ++ (to_string (length key)
        ++ b' ' ∷ (to_string (length value) ++ b' ' ∷ (key ++ (value ++ b'\n' ∷ []))))
encode (del key) = codes "DEL " ++ (to_string (length key) ++ b' ' ∷ (key ++ b'\n' ∷ []))

abbrev pub sane : ℕ → Bool
sane n = not (n == 0 || ltb max_field n)

unfoldable pub read_set : Reader LogRecord
read_set = do
  key_len ← read_number
  val_len ← read_number
  guard (sane key_len && sane val_len)
  expect b' '
  key ← read_bytes key_len
  val ← read_bytes val_len
  expect b'\n'
  pure (set key val)

unfoldable pub read_del : Reader LogRecord
read_del = do
  key_len ← read_number
  guard (sane key_len)
  expect b' '
  key ← read_bytes key_len
  expect b'\n'
  pure (del key)

unfoldable pub read_op : Bytes → Reader LogRecord
read_op op =
    if bytes_eq op (codes "SET")
    then read_set
    else if bytes_eq op (codes "DEL")
    then read_del
    else fail

-- One round of the loop of `replay_into`: `none` is its end or a `break`.
unfoldable pub read_record : Reader LogRecord
unfolding read_op read_set read_del
read_record = read_token >>= read_op

-- The loop: `apply` is the call of `store.set` or `store.del`, whose result it ignores.
unfoldable pub replay_loop {ℓ} : {S : Type ℓ} → (LogRecord → S → S) → ℕ → Bytes → S → ℕ → S × ℕ
replay_loop apply zero input store applied = (store, applied)
replay_loop apply (suc fuel) input store applied = elim (read_record input) [
  | none ↦ (store, applied)
  | some (r, rest) ↦ replay_loop apply fuel rest (apply r store) (applied + 1)
]

pub record Wal : Type 0 where
  pub file : Output
  pub ok : Bool

-- The constructor, for a path that holds `contents`; the stream is not open yet.
unfoldable pub new_wal : Output → Wal
new_wal file = record { file = record file { is_open = false }; ok = true }

unfoldable pub open_for_append : Wal → Wal × Bool
open_for_append w =
    let file = open_file w.file in (record { file = file; ok = file.is_open }, file.is_open)

unfoldable pub append_record : LogRecord → Wal → Wal × Bool
append_record r w =
    let (file, good) = write_flush (encode r) w.file in
    if not w.ok
    then (w, false)
    else if good
    then (record w { file = file }, true)
    else (record w { file = file; ok = false }, false)

unfoldable pub append_set : Bytes → Bytes → Wal → Wal × Bool
unfolding append_record
append_set key value = append_record (set key value)

unfoldable pub append_del : Bytes → Wal → Wal × Bool
unfolding append_record
append_del key = append_record (del key)
