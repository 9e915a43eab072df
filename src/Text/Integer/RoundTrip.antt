-- ===== src/Text/Integer/RoundTrip.antt =====
-- Decimal numbers, printed and read by `std::stol`.
use redon.Prelude.{ℕ, ◌^◌, ◌<◌, ◌≡◌, ◌≢◌, refl, ap, ◌∙◌, false, not, Bytes, [], ◌∷◌, some, arith}
use redon.Text.{is_space, skip_space}
use redon.Text.Span.{span, Every, span_all}
use redon.Text.Decimal.{is_digit, to_string, value, strip_minus}
use redon.Text.Decimal.RoundTrip.{Digits, to_string-ne-nil, to_string-Digits, value-to_string}
use redon.Text.Integer.{pos, signed, integer_of, parse_integer, stol}

-- No digit is whitespace.
pub Every-Digits : (s : Bytes) → Digits s → Every (λ c. not (is_space c)) s
unfolding is_digit is_space
Every-Digits [] h = tt
Every-Digits (c ∷ s) h = (ground arith, Every-Digits s h.1)

parse_integer-Digits :
    (bound : ℕ) (s : Bytes)
    → s ≢ []
    → Digits s
    → parse_integer bound s ≡ signed bound false (value s)
unfolding parse_integer integer_of
parse_integer-Digits bound [] h ds = absurd (h refl)
parse_integer-Digits bound (d ∷ s) h ds = rw (front, sign, span_all is_digit (d ∷ s) ds) refl
  where
    front : skip_space (d ∷ s) ≡ d ∷ s
    front = unfold skip_space span is_space is_digit in ground arith

    sign : strip_minus (d ∷ s) ≡ (false, d ∷ s)
    sign = unfold is_digit in ground arith

pub stol-to_string : (n : ℕ) → n < 2 ^ 63 → stol (to_string n) ≡ some (pos n)
unfolding signed
stol-to_string n h =
    parse_integer-Digits (2 ^ 63) (to_string n) (to_string-ne-nil n) (to_string-Digits n)
    ∙ ap (signed (2 ^ 63) false) (value-to_string n)
    ∙ ground arith
