-- ===== src/Text/Integer.antt =====
-- `std::stol` and `std::stoi`, of a 64-bit `long` and a 32-bit `int`.
pub mod RoundTrip
use redon.Prelude.{
  ℕ, zero, suc, ◌^◌, Bool, true, false, Bytes, Option, none, some, ltb, leb, if◌then◌else◌,
  is_empty,
}
use redon.Text.{skip_space}
use redon.Text.Span.{span}
use redon.Text.Decimal.{is_digit, value, strip_minus}

pub data ℤ : Type 0 where
  pos negsuc : ℕ → ℤ

abbrev pub neg : ℕ → ℤ
neg zero = pos 0
neg (suc n) = negsuc n

-- The number with its sign, when it lies in `[-bound, bound)`.
unfoldable pub signed : ℕ → Bool → ℕ → Option ℤ
signed bound false n = if ltb n bound then some (pos n) else none
signed bound true n = if leb n bound then some (neg n) else none

unfoldable pub integer_of : ℕ → Bool → Bytes → Option ℤ
integer_of bound minus digits = if is_empty digits then none else signed bound minus (value digits)

-- What stands behind the digits is not read; `none` is the exception.
unfoldable pub parse_integer : ℕ → Bytes → Option ℤ
parse_integer bound s =
    let (minus, unsigned) = strip_minus (skip_space s) in
    integer_of bound minus (span is_digit unsigned).0

abbrev pub stol : Bytes → Option ℤ
stol s = parse_integer (2 ^ 63) s

abbrev pub stoi : Bytes → Option ℤ
stoi s = parse_integer (2 ^ 31) s
