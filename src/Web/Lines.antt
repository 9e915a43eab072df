-- ===== src/Web/Lines.antt =====
-- The command that src/web.cpp takes off a body, as src/server.cpp reads it.
use redon.Prelude.{
  ℕ, ◌≡◌, refl, Bool, not, ◌&&◌, Bytes, [], ◌∷◌, ◌++◌, some, arith, is_empty, Bool-cases, inl, inr,
}
use redon.Text.Span.{span, Every, Every-span}
use redon.Web.{is_blank, is_line_end, trim_back, first_line}
use redon.Server.Client.{find_line}

abbrev in_line : ℕ → Bool
in_line c = not (is_line_end c)

Every-behind : (s : Bytes) → Every in_line s → Every in_line (span is_blank s).1
unfolding span
Every-behind [] h = tt
Every-behind (c ∷ s) h = elim (Bool-cases (is_blank c)) [
  | inl e ↦ rw e (Every-behind s h.1)
  | inr e ↦ rw e h
]

Every-trim_back : (s : Bytes) → Every in_line s → Every in_line (trim_back s)
unfolding trim_back
Every-trim_back [] h = tt
Every-trim_back (c ∷ s) h = elim (Bool-cases (is_empty (trim_back s) && is_blank c)) [
  | inl e ↦ rw e tt
  | inr e ↦ rw e (h.0, Every-trim_back s h.1)
]

find_line_plain :
    (line more : Bytes) → Every in_line line → find_line (line ++ b'\n' ∷ more) ≡ some (line, more)
unfolding find_line
find_line_plain [] more h = refl
find_line_plain (c ∷ line) more h = ground (arith, h.0, find_line_plain line more h.1)

-- Whatever a browser posts, the bytes that the gateway sends for it are one line for the server, and
-- that line is the command: no second command can follow it.
pub find_line-first_line :
    (body : Bytes) → find_line (first_line body ++ b'\n' ∷ []) ≡ some (first_line body, [])
unfolding first_line
find_line-first_line body =
    let front = (span in_line body).0 in
    find_line_plain (first_line body) []
      (Every-trim_back (span is_blank front).1 (Every-behind front (Every-span in_line body)))
