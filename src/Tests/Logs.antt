-- ===== src/Tests/Logs.antt =====
-- The write-ahead log of src/wal.cpp at concrete inputs.
use redon.Prelude.{
  ◌≤◌, ◌+◌, ◌<◌, ◌≡◌, refl, true, List, [], ◌∷◌, ◌++◌, foldl, none, arith, take, length, All, codes,
  bytes_eq,
}
use redon.Text.{is_space, skip_space, span_token}
use redon.Text.Span.{span}
use redon.Text.Decimal.{to_string, read_size, is_digit, value}
use redon.Stream.{◌>>=◌, read_token, read_number}
use redon.Output.{write_flush}
use redon.Wal.{LogRecord, Wal, encode, read_record, replay_loop, append_set}
use redon.Wal.Format.{IsRecord, read_record_torn}
use redon.Wal.Replay.{encode_all, replay_loop_fuel, replay_loop-encode_all}
use redon.Wal.Torn.{cut, acknowledged_set_lost}

abbrev written : LogRecord
written = LogRecord.set (codes "k") (codes "a b")

abbrev history : List LogRecord
history = written ∷ LogRecord.del (codes "k") ∷ []

written-IsRecord : IsRecord written
written-IsRecord = ((omega arith, omega arith), (omega arith, omega arith))

history-IsRecord : All IsRecord history
history-IsRecord = (written-IsRecord, ((omega arith, omega arith), tt))

-- What the replay does, as a list.
abbrev note : LogRecord → List LogRecord → List LogRecord
note r l = r ∷ l

torn_lem : read_record (codes "SET 5") ≡ none
unfolding read_record ◌>>=◌ read_token span_token span skip_space is_space bytes_eq read_number
    read_size is_digit value
torn_lem = refl

replay_loop-encode_all_example :
    replay_loop note 10 (encode_all history ++ codes "SET 5") [] 0
    ≡ (foldl (λ l r. note r l) [] history, 0 + length history)
replay_loop-encode_all_example =
    replay_loop-encode_all note history (codes "SET 5") 10 [] 0 history-IsRecord torn_lem
      (omega arith)

history-length : length (encode_all history ++ codes "SET 5") ≤ 60
unfolding encode_all encode to_string
history-length = omega arith

replay_loop_fuel_example :
    replay_loop note (60 + 7) (encode_all history ++ codes "SET 5") [] 0
    ≡ replay_loop note 60 (encode_all history ++ codes "SET 5") [] 0
replay_loop_fuel_example =
    replay_loop_fuel note 60 7 (encode_all history ++ codes "SET 5") [] 0 history-length

written-length : 9 < length (encode written)
unfolding encode to_string
written-length = omega arith

read_record_torn_example : read_record (take 9 (encode written)) ≡ none
read_record_torn_example = read_record_torn written 9 written-IsRecord written-length

-- A log that a crash cut after two bytes of its second record.
abbrev torn_log : Wal
torn_log = record {
  file = record {
    contents = encode_all (written ∷ []) ++ cut 2;
    outcomes = [];
    calls = [];
    is_open = true;
  };
  ok = true;
}

taken : (append_set (codes "k") (codes "new") torn_log).1 ≡ true
unfolding append_set write_flush
taken = refl

acknowledged_set_lost_example :
    let input = (append_set (codes "k") (codes "new") torn_log).0.file.contents in
    replay_loop note (length input) input [] 0 ≡ (foldl (λ l r. note r l) [] (written ∷ []), 1)
acknowledged_set_lost_example =
    acknowledged_set_lost note (written ∷ []) 2 (codes "k") (codes "new") torn_log []
      (written-IsRecord, tt) (omega arith) (omega arith) refl taken
