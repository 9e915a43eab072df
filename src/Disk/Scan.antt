-- ===== src/Disk/Scan.antt =====
-- The scan of `recover` in src/disk_store.cpp beside the record reader of src/wal.cpp.
use redon.Prelude.{
  ℕ, suc, ◌+◌, ◌≡◌, refl, Bytes, [], ◌∷◌, Option, none, some, arith, length, take, drop,
  length-take_le, length-drop, leb, true, false, inl, inr, Bool-cases, codes, bytes_eq,
}
use redon.Stream
use redon.Stream.{
  Reader, ◌>>=◌, ◌>>◌, pure, guard, fail, read_token, read_number, expect, read_bytes,
}
use redon.Wal.{LogRecord, read_record, read_op, read_set, read_del}
use redon.Disk.Recover.{
  Scanned, set_at, del_of, scan_set, scan_del, scan_op, scan_entry, unread, skip,
}

-- How many bytes are left behind the start of the value.
abbrev pub scanned : LogRecord → Bytes → Scanned
scanned (LogRecord.set key value) rest =
    set_at key (length value + suc (length rest)) (length value)
scanned (LogRecord.del key) rest = del_of key

abbrev pub translate : Option (LogRecord × Bytes) → Option (Scanned × Bytes)
translate none = none
translate (some (r, rest)) = some (scanned r rest, rest)

translate-bind :
    {A : Type 0} (m : Reader A) (f : A → Reader LogRecord) (g : A → Reader Scanned)
    → ((a : A) (s : Bytes) → g a s ≡ translate (f a s))
    → (s : Bytes) → (m >>= g) s ≡ translate ((m >>= f) s)
unfolding ◌>>=◌
translate-bind {A} m f g same s = go (m s)
  where
    go : (o : Option (A × Bytes)) → Stream.continue o g ≡ translate (Stream.continue o f)
    go none = refl
    go (some (a, more)) = same a more

abbrev log_value : Bytes → ℕ → Reader LogRecord
log_value key n = do val ← read_bytes n; expect b'\n'; pure (LogRecord.set key val)

abbrev scan_value : Bytes → ℕ → Reader Scanned
scan_value key n = do left ← unread; skip n; expect b'\n'; pure (set_at key left n)

abbrev end_of : {A : Type 0} → A → Reader A
end_of a = do expect b'\n'; pure a

end_of-none : (r : Scanned) (more : Bytes) → length more ≡ 0 → end_of r more ≡ none
end_of-none r [] h = unfold ◌>>=◌ expect in refl
end_of-none r (c ∷ more) h = absurd (omega arith)

end_of-scanned :
    (key val : Bytes) (n left : ℕ) (more : Bytes)
    → length val ≡ n
    → left ≡ n + length more
    → end_of (set_at key left n) more ≡ translate (end_of (LogRecord.set key val) more)
unfolding ◌>>=◌ expect pure
end_of-scanned key val n left [] h e = refl
end_of-scanned key val n left (c ∷ more) h e = ground arith

read_bytes_fits :
    (n : ℕ) (s : Bytes) → leb n (length s) ≡ true → read_bytes n s ≡ some (take n s, drop n s)
unfolding read_bytes
read_bytes_fits n s h = rw h

read_bytes_over : (n : ℕ) (s : Bytes) → leb n (length s) ≡ false → read_bytes n s ≡ none
unfolding read_bytes
read_bytes_over n s h = rw h

value_step : (key : Bytes) (n : ℕ) (s : Bytes) → scan_value key n s ≡ translate (log_value key n s)
unfolding ◌>>=◌ unread skip
value_step key n s = elim (Bool-cases (leb n (length s))) [
  | inl fits ↦ rw (read_bytes_fits n s fits) (
      end_of-scanned key (take n s) n (length s) (drop n s) (length-take_le n s (ground arith))
        (ground (arith, length-drop n s)))
  | inr over ↦
      rw (read_bytes_over n s over)
        (end_of-none (set_at key (length s) n) (drop n s) (ground (arith, length-drop n s)))
]

scan_set-translate : (s : Bytes) → scan_set s ≡ translate (read_set s)
unfolding scan_set read_set
scan_set-translate = translate-bind read_number _ _ λ klen. translate-bind read_number _ _ λ vlen.
    translate-bind (guard _) _ _ λ _.
      translate-bind (expect _) _ _
        λ _. translate-bind (read_bytes klen) _ _ λ key. value_step key vlen

del_step : (key s : Bytes) → pure (del_of key) s ≡ translate (pure (LogRecord.del key) s)
unfolding pure
del_step key s = refl

fail_step : (s : Bytes) → fail {A = Scanned} s ≡ translate (fail s)
unfolding fail
fail_step s = refl

scan_del-translate : (s : Bytes) → scan_del s ≡ translate (read_del s)
unfolding scan_del read_del
scan_del-translate = translate-bind read_number _ _ λ klen. translate-bind (guard _) _ _ λ _.
    translate-bind (expect _) _ _ λ _.
      translate-bind (read_bytes klen) _ _ λ key. translate-bind (expect _) _ _ λ _. del_step key

scan_op-translate : (op s : Bytes) → scan_op op s ≡ translate (read_op op s)
unfolding scan_op read_op
scan_op-translate op s = elim (Bool-cases (bytes_eq op (codes "SET"))) [
  | inl e ↦ rw e (scan_set-translate s)
  | inr e ↦ rw e (elim (Bool-cases (bytes_eq op (codes "DEL"))) [
    | inl e' ↦ rw e' (scan_del-translate s)
    | inr e' ↦ rw e' (fail_step s)
  ])
]

-- For every input the scan of the disk store reads a record exactly where the replay of the log
-- does, with the same key and the place and length of the same value.
pub scan_entry-read_record : (s : Bytes) → scan_entry s ≡ translate (read_record s)
unfolding scan_entry read_record
scan_entry-read_record = translate-bind read_token read_op scan_op scan_op-translate
