-- ===== src/Web/Response.antt =====
-- The responses of src/web.cpp, and what a reader of them finds.
use redon.Prelude.{
  ℕ, ◌^◌, ◌<◌, ◌≡◌, refl, ap, ◌∙◌, true, Bytes, List, [], ◌∷◌, ◌++◌, Option, none, some, codes,
  bytes_eq, if◌then◌else◌, Option-cases, inl, inr, length,
}
use redon.Text.{is_space, skip_space}
use redon.Text.Span.{span}
use redon.Text.Decimal.{to_string}
use redon.Text.Decimal.RoundTrip.{to_string-Digits}
use redon.Text.Integer.{stol, parse_integer}
use redon.Text.Integer.RoundTrip.{stol-to_string}
use redon.Router.{chop}
use redon.Web.{
  cut_at, ascii_lower, length_of, header_length, get_lines, first_length, parse_content_length,
  line_end, http_response, split_head,
}
use redon.Web.HeaderLines.{
  one_line, get_lines_line, chop_line, one_line-Digits, heads, all_lines, split_head-joined,
  first_header, type_line, length_line, fixed_lines,
}

abbrev pub named : Option (Bytes × Bytes) → Option ℕ
named none = none
named (some (name, text)) =
    if bytes_eq (ascii_lower name) (codes "content-length")
    then some (length_of (stol text))
    else none

header_length-chop : (line : Bytes) → header_length (line ++ b'\r' ∷ []) ≡ named (cut_at b':' line)
unfolding header_length
header_length-chop line =
    join (cut_at b':' (chop (line ++ b'\r' ∷ [])))
    ∙ ap (λ l. named (cut_at b':' l)) (chop_line line)
  where
    join :
        (o : Option (Bytes × Bytes))
        → elim o [
          | none ↦ none
          | some (name, text) ↦
              if bytes_eq (ascii_lower name) (codes "content-length")
              then some (length_of (stol text))
              else none
        ]
          ≡ named o
    join none = refl
    join (some r) = refl

cut_status : (status : Bytes) → named (cut_at b':' (first_header status)) ≡ none
unfolding first_header cut_at ascii_lower bytes_eq
cut_status status = elim (Option-cases (cut_at b':' status)) [
  | inl z ↦ rw z refl
  | inr (r, z) ↦ rw z refl
]

cut_type : (ctype : Bytes) → named (cut_at b':' (type_line ctype)) ≡ none
unfolding type_line cut_at ascii_lower bytes_eq
cut_type ctype = refl

stol-blank : (s : Bytes) → stol (b' ' ∷ s) ≡ stol s
unfolding parse_integer skip_space span is_space
stol-blank s = refl

cut_length :
    (n : ℕ) → named (cut_at b':' (length_line n)) ≡ some (length_of (stol (b' ' ∷ to_string n)))
unfolding length_line cut_at ascii_lower bytes_eq
cut_length n = refl

header_length-length : (n : ℕ) → n < 2 ^ 63 → header_length (length_line n ++ b'\r' ∷ []) ≡ some n
unfolding length_of
header_length-length n h =
    header_length-chop (length_line n)
    ∙ cut_length n
    ∙ ap (λ o. some (length_of o)) (stol-blank (to_string n) ∙ stol-to_string n h)

-- A line that announces no length, and one that does.
first_length-skip :
    (line : Bytes) (lines : List Bytes)
    → header_length line ≡ none
    → first_length (line ∷ lines) ≡ first_length lines
unfolding first_length
first_length-skip line lines e = rw (e, first_length) refl

first_length-found :
    (line : Bytes) (lines : List Bytes) (n : ℕ)
    → header_length line ≡ some n
    → first_length (line ∷ lines) ≡ n
unfolding first_length
first_length-found line lines n e = rw (e, first_length) refl

one_line-status : (status : Bytes) → one_line status ≡ true → one_line (first_header status) ≡ true
unfolding first_header
one_line-status status e = e

one_line-type : (ctype : Bytes) → one_line ctype ≡ true → one_line (type_line ctype) ≡ true
unfolding type_line
one_line-type ctype e = e

one_line-length : (n : ℕ) → one_line (length_line n) ≡ true
unfolding length_line
one_line-length n = one_line-Digits (to_string n) (to_string-Digits n)

announced :
    (first second : Bytes) (n : ℕ) (t : Bytes)
    → one_line first ≡ true
    → one_line second ≡ true
    → header_length (first ++ b'\r' ∷ []) ≡ none
    → header_length (second ++ b'\r' ∷ []) ≡ none
    → n < 2 ^ 63
    → parse_content_length
        (first ++ (line_end ++ (second ++ (line_end ++ (length_line n ++ (line_end ++ t))))))
      ≡ n
unfolding parse_content_length
announced first second n t e f skip skip' small =
    ap first_length
      (get_lines_line first (second ++ (line_end ++ (length_line n ++ (line_end ++ t)))) e)
    ∙ first_length-skip (first ++ b'\r' ∷ [])
        (get_lines (second ++ (line_end ++ (length_line n ++ (line_end ++ t))))) skip
    ∙ ap first_length (get_lines_line second (length_line n ++ (line_end ++ t)) f)
    ∙ first_length-skip (second ++ b'\r' ∷ []) (get_lines (length_line n ++ (line_end ++ t))) skip'
    ∙ ap first_length (get_lines_line (length_line n) t (one_line-length n))
    ∙ first_length-found (length_line n ++ b'\r' ∷ []) (get_lines t) n
        (header_length-length n small)

-- A reader of a response finds the body behind the first blank line, all of it, and the length that the
-- headers announce is the body's.
pub split_head-http_response :
    (status ctype body : Bytes)
    → one_line status ≡ true
    → one_line ctype ≡ true
    → length body < 2 ^ 63
    → (head : Bytes) × (split_head (http_response status ctype body) ≡ some (head, body))
      × (parse_content_length head ≡ length body)
unfolding http_response first_header type_line length_line
split_head-http_response status ctype body es et small =
    let lines = first_header status ∷ type_line ctype ∷ length_line (length body) ∷ fixed_lines in
    let fine : all_lines lines ≡ true = rw (es, et, one_line-length (length body)) refl in
    (
      heads lines,
      split_head-joined (first_header status)
          (type_line ctype ∷ length_line (length body) ∷ fixed_lines) body fine,
      announced (first_header status) (type_line ctype) (length body) (heads fixed_lines)
          (one_line-status status es) (one_line-type ctype et)
          (header_length-chop (first_header status) ∙ cut_status status)
          (header_length-chop (type_line ctype) ∙ cut_type ctype) small,
    )
