-- ===== src/Text/Decimal.antt =====
-- Decimal numbers: `operator<<` and `std::to_string` of a `size_t`, and `operator>>` into one.
pub mod RoundTrip
use redon.Prelude.{
  ℕ, zero, suc, ◌+◌, ◌-◌, ◌*◌, ◌/◌, ◌%◌, ◌^◌, Bool, true, false, ◌&&◌, Bytes, [], ◌∷◌, ◌++◌, foldl,
  Option, none, some, ltb, leb, ◌==◌, if◌then◌else◌,
}
use redon.Text.Span.{span}

abbrev pub size_mod : ℕ
size_mod = 2 ^ 64

unfoldable pub is_digit : ℕ → Bool
is_digit c = leb b'0' c && leb c b'9'

to_digits : ℕ → ℕ → Bytes
to_digits zero n = []
to_digits (suc f) n =
    let front = to_digits f (n / 10) in
    if ltb n 10 then (b'0' + n) ∷ [] else front ++ (b'0' + n % 10) ∷ []

-- A number of `n` has at most `n + 1` digits, so the fuel never runs out.
unfoldable pub to_string : ℕ → Bytes
unfolding to_digits
to_string n = to_digits (suc n) n

-- The number that digits spell.
unfoldable pub value : Bytes → ℕ
value = foldl (λ n c. n * 10 + (c - b'0')) 0

abbrev pub strip_minus : Bytes → Bool × Bytes
strip_minus [] = (false, [])
strip_minus (c ∷ s) =
    if c == b'-' then (true, s) else if c == b'+' then (false, s) else (false, c ∷ s)

-- The number behind its sign: at least one digit, in range, and a minus wraps around.
finish : Bool → Bytes × Bytes → Option (ℕ × Bytes)
finish minus ([], rest) = none
finish minus (d ∷ ds, rest) =
    let n = value (d ∷ ds) in
    if leb size_mod n then none else some (if minus then (size_mod - n) % size_mod else n, rest)

-- `operator>>` into a `size_t`, with the leading whitespace gone: `none` sets the fail bit.
unfoldable pub read_size : Bytes → Option (ℕ × Bytes)
unfolding finish
read_size s = finish (strip_minus s).0 (span is_digit (strip_minus s).1)
