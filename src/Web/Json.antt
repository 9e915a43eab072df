-- ===== src/Web/Json.antt =====
-- The escaping of src/web.cpp beside a reader of JSON string literals (RFC 8259, section 7).
use redon.Prelude.{
  ℕ, zero, suc, ◌+◌, ◌-◌, ◌*◌, ◌/◌, ◌%◌, ◌<◌, ◌≡◌, refl, ap, ◌∙◌, true, ◌&&◌, ◌||◌, Bytes, [], ◌∷◌,
  ◌++◌, append_assoc, Option, none, some, arith, codes, ltb, leb, ◌==◌, if◌then◌else◌, Bool-cases,
  inl, inr,
}
use redon.Web.{hex_digit, escape, json_escape}

abbrev pub hex_value : ℕ → Option ℕ
hex_value h =
    if leb b'0' h && leb h b'9'
    then some (h - b'0')
    else if leb b'a' h && leb h b'f'
    then some (h - b'a' + 10)
    else if leb b'A' h && leb h b'F'
    then some (h - b'A' + 10)
    else none

-- Where the reader stands: between characters, behind a backslash, or with so many hexadecimal digits
-- still to come behind the number so far.
pub data Mode : Type 0 where
  between escaped : Mode
  digits : ℕ → ℕ → Mode

abbrev pub cons_byte : ℕ → Option (Bytes × Bytes) → Option (Bytes × Bytes)
cons_byte c none = none
cons_byte c (some (s, rest)) = some (c ∷ s, rest)

-- The byte that a backslash and this byte stand for, if it is one of the short escapes.
abbrev pub short_escape : ℕ → Option ℕ
short_escape c =
    if c == b'"' || c == b'\\' || c == b'/'
    then some c
    else if c == b'n'
    then some b'\n'
    else if c == b'r'
    then some b'\r'
    else if c == b't'
    then some b'\t'
    else if c == b'b'
    then some 8
    else if c == b'f'
    then some 12
    else none

-- A string literal behind its opening quote: the bytes that it stands for, and what follows its closing
-- quote. An escape above 0x7f, which is more than one byte, is left out.
unfoldable pub read_string : Mode → Bytes → Option (Bytes × Bytes)
read_string m [] = none
read_string between (c ∷ s) =
    let next = cons_byte c (read_string between s) in
    let behind = read_string escaped s in
    if c == b'"'
    then some ([], s)
    else if c == b'\\'
    then behind
    else if ltb c 0x20
    then none
    else next
read_string escaped (c ∷ s) =
    let rest = read_string between s in
    let number = read_string (digits 4 0) s in
    if c == b'u' then number else elim (short_escape c) [ none ↦ none | some b ↦ cons_byte b rest ]
read_string (digits zero n) (c ∷ s) = none
read_string (digits (suc zero) n) (c ∷ s) =
    let rest = read_string between s in
    elim (hex_value c) [
      | none ↦ none
      | some d ↦ if ltb (n * 16 + d) 0x80 then cons_byte (n * 16 + d) rest else none
    ]
read_string (digits (suc (suc k)) n) (c ∷ s) = elim (hex_value c) [
  | none ↦ none
  | some d ↦ read_string (digits (suc k) (n * 16 + d)) s
]

hex_value-hex_digit : (d : ℕ) → d < 16 → hex_value (hex_digit d) ≡ some d
unfolding hex_digit
hex_value-hex_digit d h = ground arith

read_hex :
    (c : ℕ) (t : Bytes)
    → c < 0x20
    → read_string between (codes "\\u00" ++ hex_digit (c / 16 % 16) ∷ hex_digit (c % 16) ∷ t)
      ≡ cons_byte c (read_string between t)
unfolding read_string
read_hex c t h =
    rw (hex_value-hex_digit (c / 16 % 16) (omega arith), hex_value-hex_digit (c % 16) (omega arith))
      (let e : (0 + c / 16 % 16) * 16 + c % 16 ≡ c = omega arith in rw e (ground arith))

read_escape :
    (c : ℕ) (t : Bytes) → read_string between (escape c ++ t) ≡ cons_byte c (read_string between t)
unfolding escape read_string
read_escape c t = elim (Bool-cases (c == b'"')) [
  | inl e ↦ rw e (named b'"' e)
  | inr quote ↦ elim (Bool-cases (c == b'\\')) [
    | inl e ↦ rw (quote, e) (named b'\\' e)
    | inr slash ↦ elim (Bool-cases (c == b'\n')) [
      | inl e ↦ rw (quote, slash, e) (named b'\n' e)
      | inr newline ↦ elim (Bool-cases (c == b'\r')) [
        | inl e ↦ rw (quote, slash, newline, e) (named b'\r' e)
        | inr return ↦ elim (Bool-cases (c == b'\t')) [
          | inl e ↦ rw (quote, slash, newline, return, e) (named b'\t' e)
          | inr tab ↦ elim (Bool-cases (ltb c 0x20)) [
            | inl e ↦ rw (quote, slash, newline, return, tab, e) (read_hex c t (ground arith))
            | inr e ↦ rw (quote, slash, newline, return, tab, e) (ground arith)
          ]
        ]
      ]
    ]
  ]
]
  where
    named :
        (d : ℕ)
        → (c == d) ≡ true
        → cons_byte d (read_string between t) ≡ cons_byte c (read_string between t)
    named d e = ap (λ x. cons_byte x (read_string between t)) (ground arith)

-- What the gateway writes between quotes is read back as the bytes that it was given, whatever they
-- are: a quote or a backslash in a reply does not end the literal, and no byte below 0x20 is left in it.
pub read_string-json_escape :
    (s rest : Bytes) → read_string between (json_escape s ++ b'"' ∷ rest) ≡ some (s, rest)
unfolding json_escape
read_string-json_escape [] rest = unfold read_string in refl
read_string-json_escape (c ∷ s) rest =
    ap (read_string between) (append_assoc (escape c) (json_escape s) (b'"' ∷ rest))
    ∙ read_escape c (json_escape s ++ b'"' ∷ rest)
    ∙ ap (cons_byte c) (read_string-json_escape s rest)
