-- ===== src/Text/Decimal/RoundTrip.antt =====
-- Decimal numbers, printed and read.
use mathlib.Core.List.{foldl-append, concat-ne-nil}
use redon.Prelude.{
  ℕ, zero, suc, ◌+◌, ◌-◌, ◌*◌, ◌/◌, ◌%◌, ◌≤◌, ◌<◌, ◌≡◌, ◌≢◌, refl, ap, sym, Bool, true, false,
  Bytes, [], ◌∷◌, ◌++◌, some, arith, length, ◌∙◌,
}
use redon.Text.Span.{span, Every, span_stop, span-append, length-span}
use redon.Text.Decimal.{size_mod, is_digit, to_digits, to_string, value, finish, read_size}

abbrev pub Digits : Bytes → Type 0
Digits = Every is_digit

Every-concat :
    (test : ℕ → Bool) (s : Bytes) (c : ℕ) → Every test s → test c ≡ true → Every test (s ++ c ∷ [])
Every-concat test [] c h e = (e, tt)
Every-concat test (b ∷ s) c h e = (h.0, Every-concat test s c h.1 e)

low_digit : (n : ℕ) → is_digit (48 + n % 10) ≡ true
unfolding is_digit
low_digit n = ground arith

to_digits-Digits : (f n : ℕ) → Digits (to_digits f n)
unfolding to_digits is_digit
to_digits-Digits zero n = tt
to_digits-Digits (suc f) n = ground (
  arith,
  Every-concat is_digit (to_digits f (n / 10)) (48 + n % 10) (to_digits-Digits f (n / 10))
      (low_digit n),
)

value-concat : (s : Bytes) (c : ℕ) → value (s ++ c ∷ []) ≡ value s * 10 + (c - 48)
unfolding value
value-concat s c = foldl-append _ 0 s (c ∷ [])

value-to_digits : (f n : ℕ) → n < f → value (to_digits f n) ≡ n
unfolding to_digits
value-to_digits zero n h = elim h [ ]
value-to_digits (suc f) n h = ground (
  arith,
  value-to_digits f (n / 10),
  value-concat (to_digits f (n / 10)) (48 + n % 10),
  one_digit,
)
  where
    one_digit : value ((48 + n) ∷ []) ≡ n
    one_digit = unfold value in omega arith

to_digits-ne-nil : (f n : ℕ) → to_digits (suc f) n ≢ []
unfolding to_digits
to_digits-ne-nil f n = ground (arith, concat-ne-nil (48 + n % 10) (to_digits f (n / 10)))

read_size-Digits :
    (s : Bytes) (c : ℕ) (rest : Bytes)
    → s ≢ []
    → Digits s
    → is_digit c ≡ false
    → value s < size_mod
    → read_size (s ++ c ∷ rest) ≡ some (value s, c ∷ rest)
unfolding read_size is_digit
read_size-Digits [] c rest h ds e fits = absurd (h refl)
read_size-Digits (d ∷ s) c rest h ds e fits = ground (arith, span_stop is_digit (d ∷ s) rest c ds e)

pub to_string-ne-nil : (n : ℕ) → to_string n ≢ []
unfolding to_string
to_string-ne-nil n = to_digits-ne-nil n n

pub to_string-Digits : (n : ℕ) → Digits (to_string n)
unfolding to_string
to_string-Digits n = to_digits-Digits (suc n) n

pub value-to_string : (n : ℕ) → value (to_string n) ≡ n
unfolding to_string
value-to_string n = value-to_digits (suc n) n (omega arith)

-- A printed number is read back, up to the first byte that is no digit.
pub read_size-to_string :
    (n c : ℕ) (rest : Bytes)
    → n < size_mod
    → is_digit c ≡ false
    → read_size (to_string n ++ c ∷ rest) ≡ some (n, c ∷ rest)
unfolding to_string
read_size-to_string n c rest h e =
    let s = to_digits (suc n) n in
    let exact : value s ≡ n = value-to_digits (suc n) n (omega arith) in
    read_size-Digits s c rest (to_digits-ne-nil n n) (to_digits-Digits (suc n) n) e (rw exact h)
    ∙ ap (λ m. some (m, c ∷ rest)) exact

finish-append :
    (minus : Bool) (r : Bytes × Bytes) (t : Bytes) (n : ℕ) (rest : Bytes)
    → finish minus r ≡ some (n, rest)
    → (r.1 ≡ rest) × (finish minus (r.0, r.1 ++ t) ≡ some (n, rest ++ t))
unfolding finish
finish-append minus ([], more) t n rest h = cc
finish-append minus (d ∷ ds, more) t n rest h = ground arith

finish-span-append :
    (minus : Bool) (s t : Bytes) (n : ℕ) (rest : Bytes)
    → finish minus (span is_digit s) ≡ some (n, rest)
    → rest ≢ []
    → finish minus (span is_digit (s ++ t)) ≡ some (n, rest ++ t)
finish-span-append minus s t n rest h ne =
    let (same, more) = finish-append minus (span is_digit s) t n rest h in
    rw (span-append is_digit s t (λ e. ne (sym same ∙ e))) more

-- A number that is followed by a byte is read the same whatever comes behind that byte.
pub read_size-append :
    (s t : Bytes) {n : ℕ} {rest : Bytes}
    → read_size s ≡ some (n, rest)
    → rest ≢ []
    → read_size (s ++ t) ≡ some (n, rest ++ t)
unfolding read_size
read_size-append [] t h ne = unfold finish span in cc
read_size-append (c ∷ s) t {n} {rest} h ne = ground (
  arith,
  finish-span-append true s t n rest,
  finish-span-append false s t n rest,
  finish-span-append false (c ∷ s) t n rest,
)

finish_shorter :
    (minus : Bool) (s : Bytes) (n : ℕ) (rest : Bytes)
    → finish minus (span is_digit s) ≡ some (n, rest)
    → length rest ≤ length s
finish_shorter minus s n rest h =
    omega (
      arith,
      length-span is_digit s,
      ap length (finish-append minus (span is_digit s) [] n rest h).0,
    )

pub read_size-length :
    (s : Bytes) {n : ℕ} {rest : Bytes} → read_size s ≡ some (n, rest) → length rest ≤ length s
unfolding read_size
read_size-length [] h = unfold finish span in cc
read_size-length (c ∷ s) {n} {rest} h = ground (
  arith,
  finish_shorter true s n rest,
  finish_shorter false s n rest,
  finish_shorter false (c ∷ s) n rest,
)
