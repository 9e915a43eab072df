-- ===== src/Stream/Scan.antt =====
-- The extent of what `operator>>` reads.
use redon.Prelude.{
  ℕ, ◌≤◌, ◌<◌, ◌≡◌, ◌≢◌, refl, ap, ◌∙◌, false, not, Bytes, [], ◌∷◌, ◌++◌, some, none, arith, length,
  length-append, take-append_length, drop-append_length,
}
use redon.Text.{is_space, skip_space, span_token}
use redon.Text.Span.{span, Every, span-append, length-span}
use redon.Text.Decimal.{read_size, size_mod, is_digit, to_string}
use redon.Text.Decimal.RoundTrip.{
  read_size-append, read_size-length, read_size-to_string, to_string-ne-nil, to_string-Digits,
}
use redon.Stream.{first_token, read_token, read_number, read_bytes}
use redon.Stream.Local.{IsDelimited, IsEager}

length-skip_space : (s : Bytes) → length (skip_space s) ≤ length s
unfolding skip_space
length-skip_space s = omega (arith, length-span is_space s)

skip_space-append : (s t : Bytes) → skip_space s ≢ [] → skip_space (s ++ t) ≡ skip_space s ++ t
unfolding skip_space
skip_space-append s t ne = ap (λ r. r.1) (span-append is_space s t ne)

read_size-nil : (u : Bytes) → u ≡ [] → read_size u ≡ none
read_size-nil [] e = unfold read_size span in refl
read_size-nil (c ∷ u) e = cc

pub IsEager-read_number : IsEager read_number
unfolding read_number skip_space span
IsEager-read_number = record { at_end = read_size-nil [] refl }

pub IsDelimited-read_number : IsDelimited read_number
unfolding read_number
IsDelimited-read_number = record {
  at = λ s t a rest h ne.
      let kept : skip_space s ≢ [] = λ e. cc (read_size-nil (skip_space s) e) in
      rw (skip_space-append s t kept) (read_size-append (skip_space s) t h ne);
  shorter = λ s a rest h. omega (arith, length-skip_space s, read_size-length (skip_space s) h);
}

first_token-nil : (u : Bytes) → u ≡ [] → first_token u ≡ none
first_token-nil [] e = unfold first_token span_token span in refl
first_token-nil (c ∷ u) e = cc

first_token-append :
    (u t a rest : Bytes)
    → first_token u ≡ some (a, rest)
    → rest ≢ []
    → first_token (u ++ t) ≡ some (a, rest ++ t)
unfolding first_token span_token
first_token-append u t a rest h ne = ground (arith, span-append (λ (c : ℕ). not (is_space c)) u t)

first_token_shorter : (u a rest : Bytes) → first_token u ≡ some (a, rest) → length rest < length u
unfolding first_token span_token
first_token_shorter u a rest h = ground (arith, length-span (λ (c : ℕ). not (is_space c)) u)

pub read_token-length : (s a rest : Bytes) → read_token s ≡ some (a, rest) → length rest < length s
unfolding read_token
read_token-length s a rest h =
    omega (arith, length-skip_space s, first_token_shorter (skip_space s) a rest h)

pub IsDelimited-read_token : IsDelimited read_token
unfolding read_token
IsDelimited-read_token = record {
  at = λ s t a rest h ne.
      let kept : skip_space s ≢ [] = λ e. cc (first_token-nil (skip_space s) e) in
      rw (skip_space-append s t kept) (first_token-append (skip_space s) t a rest h ne);
  shorter = λ s a rest h. omega (arith, read_token-length s a rest h);
}

skip_space_digits : (s t : Bytes) → s ≢ [] → Every is_digit s → skip_space (s ++ t) ≡ s ++ t
unfolding skip_space span is_space is_digit
skip_space_digits [] t ne ds = absurd (ne refl)
skip_space_digits (c ∷ s) t ne ds = ground (arith, ds.0)

-- A printed number is read back behind a space.
pub read_number-to_string :
    (n c : ℕ) (rest : Bytes)
    → n < size_mod
    → is_digit c ≡ false
    → read_number (b' ' ∷ (to_string n ++ c ∷ rest)) ≡ some (n, c ∷ rest)
unfolding read_number
read_number-to_string n c rest fits e =
    let there =
      skip_space_digits (to_string n) (c ∷ rest) (to_string-ne-nil n) (to_string-Digits n) in
    ap read_size (step (to_string n ++ c ∷ rest) ∙ there) ∙ read_size-to_string n c rest fits e
  where
    step : (s : Bytes) → skip_space (b' ' ∷ s) ≡ skip_space s
    step s = unfold skip_space span is_space in refl

pub read_bytes-append : (s t : Bytes) → read_bytes (length s) (s ++ t) ≡ some (s, t)
unfolding read_bytes
read_bytes-append s t =
    ground (arith, length-append s t, take-append_length s t, drop-append_length s t)
