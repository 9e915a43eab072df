-- ===== src/Web/HeaderLines.antt =====
-- The header lines of src/web.cpp, written and read.
use redon.Prelude.{
  ℕ, ◌≡◌, refl, ap, ◌∙◌, Bool, true, false, not, ◌&&◌, Bytes, List, [], ◌∷◌, ◌++◌, append-nil,
  Option, none, some, arith, codes, bytes_eq, ◌==◌, Option-cases, inl, inr, take,
}
use redon.Text.Decimal.{is_digit, to_string}
use redon.Text.Decimal.RoundTrip.{Digits}
use redon.Router.{chop}
use redon.Web.{is_line_end, get_lines, line_end, split_head}

-- No line ends in a text.
abbrev pub one_line : Bytes → Bool
one_line [] = true
one_line (c ∷ s) = not (is_line_end c) && one_line s

abbrev cons_head : Bytes → Option (Bytes × Bytes) → Option (Bytes × Bytes)
cons_head line none = none
cons_head line (some (head, body)) = some (line ++ head, body)

split_head_line :
    (line t : Bytes) → one_line line ≡ true → split_head (line ++ t) ≡ cons_head line (split_head t)
unfolding split_head bytes_eq
split_head_line [] t e = elim (Option-cases (split_head t)) [
  | inl z ↦ rw (z, cons_head) refl
  | inr (r, z) ↦ rw (z, cons_head) refl
]
split_head_line (c ∷ line) t e = ground (arith, split_head_line line t)

split_step :
    (c : ℕ) (s : Bytes)
    → bytes_eq (take 4 (c ∷ s)) (codes "\r\n\r\n") ≡ false
    → split_head (c ∷ s) ≡ cons_head (c ∷ []) (split_head s)
unfolding split_head
split_step c s e = elim (Option-cases (split_head s)) [
  | inl z ↦ rw (e, z, split_head) refl
  | inr (r, z) ↦ rw (e, z, split_head) refl
]

-- A line end with more of the headers behind it.
split_head_end :
    (c : ℕ) (t : Bytes)
    → (c == b'\r') ≡ false
    → split_head (line_end ++ c ∷ t) ≡ cons_head line_end (split_head (c ∷ t))
unfolding bytes_eq
split_head_end c t e =
    split_step b'\r' (b'\n' ∷ c ∷ t) (ground (arith, e))
    ∙ ap (cons_head (b'\r' ∷ [])) (split_step b'\n' (c ∷ t) refl)
    ∙ join (split_head (c ∷ t))
  where
    join :
        (o : Option (Bytes × Bytes))
        → cons_head (b'\r' ∷ []) (cons_head (b'\n' ∷ []) o) ≡ cons_head line_end o
    join none = refl
    join (some r) = refl

split_head_last : (body : Bytes) → split_head (line_end ++ (line_end ++ body)) ≡ some ([], body)
unfolding split_head bytes_eq
split_head_last body = refl

pub get_lines_line :
    (line t : Bytes)
    → one_line line ≡ true
    → get_lines (line ++ (line_end ++ t)) ≡ (line ++ b'\r' ∷ []) ∷ get_lines t
unfolding get_lines
get_lines_line [] t e = refl
get_lines_line (c ∷ line) t e = rw (get_lines_line line t (ground (arith, e))) (ground (arith, e))

pub chop_line : (line : Bytes) → chop (line ++ b'\r' ∷ []) ≡ line
unfolding chop
chop_line [] = refl
chop_line (c ∷ []) = refl
chop_line (c ∷ d ∷ line) = ap (◌∷◌ c) (chop_line (d ∷ line))

pub one_line-Digits : (s : Bytes) → Digits s → one_line s ≡ true
unfolding is_digit
one_line-Digits [] h = refl
one_line-Digits (c ∷ s) h = ground (arith, h.0, one_line-Digits s h.1)

-- The lines in front of the blank one, and the text that they are.
abbrev pub joined : List Bytes → Bytes → Bytes
joined [] t = line_end ++ t
joined (line ∷ lines) t = line ++ (line_end ++ joined lines t)

abbrev pub heads : List Bytes → Bytes
heads [] = []
heads (line ∷ []) = line
heads (line ∷ next ∷ lines) = line ++ (line_end ++ heads (next ∷ lines))

-- Lines of headers: some bytes, and no line end among them.
abbrev pub all_lines : List Bytes → Bool
all_lines [] = true
all_lines ([] ∷ lines) = false
all_lines ((c ∷ line) ∷ lines) = one_line (c ∷ line) && all_lines lines

pub split_head-joined :
    (line : Bytes) (lines : List Bytes) (body : Bytes)
    → all_lines (line ∷ lines) ≡ true
    → split_head (joined (line ∷ lines) body) ≡ some (heads (line ∷ lines), body)
split_head-joined [] lines body e = absurd (ground arith)
split_head-joined (c ∷ line) [] body e =
    split_head_line (c ∷ line) (line_end ++ (line_end ++ body)) (ground (arith, e))
    ∙ ap (cons_head (c ∷ line)) (split_head_last body)
    ∙ ap (λ h. some (h, body)) (append-nil (c ∷ line))
split_head-joined (c ∷ line) ([] ∷ lines) body e = absurd (ground (arith, e))
split_head-joined (c ∷ line) ((d ∷ next) ∷ lines) body e =
    split_head_line (c ∷ line) (line_end ++ joined ((d ∷ next) ∷ lines) body) (ground (arith, e))
    ∙ ap (cons_head (c ∷ line)) (
        split_head_end d (next ++ (line_end ++ joined lines body)) (ground (arith, e))
        ∙ ap (cons_head line_end) (split_head-joined (d ∷ next) lines body (ground (arith, e))))

unfoldable pub first_header : Bytes → Bytes
first_header status = codes "HTTP/1.1 " ++ status

unfoldable pub type_line : Bytes → Bytes
type_line ctype = codes "Content-Type: " ++ ctype

unfoldable pub length_line : ℕ → Bytes
length_line n = codes "Content-Length: " ++ to_string n

abbrev pub fixed_lines : List Bytes
fixed_lines =
    codes "Access-Control-Allow-Origin: *"
    ∷ codes "Access-Control-Allow-Methods: GET, POST, OPTIONS"
    ∷ codes "Cache-Control: no-store"
    ∷ codes "Connection: close"
    ∷ []
