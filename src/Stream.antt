-- ===== src/Stream.antt =====
-- Input streams, as src/wal.cpp and src/disk_store.cpp read them: `operator>>` into a string and a
-- `size_t`, `get` and `read`. A reader returns what it read and the unread bytes; `none` is a stream
-- that failed, at which the loops of both files break.
pub mod Local
pub mod Scan
use redon.Prelude.{
  ℕ, ◌≡◌, Bool, true, false, not, Bytes, [], ◌∷◌, Option, none, some, leb, ◌==◌, if◌then◌else◌,
  length, take, drop, is_empty,
}
use redon.Text.{skip_space, span_token}
use redon.Text.Decimal.{read_size}

abbrev pub Reader : Type 0 → Type 0
Reader A = Bytes → Option (A × Bytes)

abbrev pub continue {ℓ} :
    {A : Type ℓ} {B : Type ℓ} → Option (A × Bytes) → (A → Bytes → Option B) → Option B
continue none f = none
continue (some (a, s)) f = f a s

infixl 5 ◌>>=◌ ◌>>◌
unfoldable pub ◌>>=◌ : {A B : Type 0} → Reader A → (A → Reader B) → Reader B
◌>>=◌ m f s = continue (m s) f

abbrev pub ◌>>◌ : {B : Type 0} → Reader (Unit {0}) → Reader B → Reader B
m >> n = m >>= λ _. n

unfoldable pub pure : {A : Type 0} → A → Reader A
pure a s = some (a, s)

unfoldable pub guard : Bool → Reader (Unit {0})
guard b s = if b then some (tt, s) else none

unfoldable pub fail : {A : Type 0} → Reader A
fail s = none

-- A token is not empty.
first_token : Bytes → Option (Bytes × Bytes)
first_token s = let r = span_token s in if is_empty r.0 then none else some r

-- `in >> op`
unfoldable pub read_token : Reader Bytes
unfolding first_token
read_token s = first_token (skip_space s)

-- `in >> n`
unfoldable pub read_number : Reader ℕ
read_number s = read_size (skip_space s)

-- `in.get() != c`
unfoldable pub expect : ℕ → Reader (Unit {0})
expect c [] = none
expect c (b ∷ s) = if b == c then some (tt, s) else none

-- `in.read(&buf[0], n)`: fewer than `n` bytes set the fail bit.
unfoldable pub read_bytes : ℕ → Reader Bytes
read_bytes n s = if leb n (length s) then some (take n s, drop n s) else none
