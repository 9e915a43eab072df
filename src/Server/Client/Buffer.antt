-- ===== src/Server/Client/Buffer.antt =====
-- The lines of a connection's buffer, as `find_line` in `handle_client` of src/server.cpp finds them.
use redon.Prelude.{
  ℕ, ◌+◌, ◌<◌, ◌≡◌, refl, Bytes, List, [], ◌∷◌, none, some, arith, if◌then◌else◌, length,
  Option-cases, inl, inr, ◌==◌,
}
use redon.Server.Client.{find_line}

-- The line ends of a buffer.
unfoldable pub line_ends : Bytes → ℕ
line_ends [] = 0
line_ends (b ∷ s) = (if b == b'\n' then 1 else 0) + line_ends s

-- The bytes behind the last line end; the whole buffer where it has none.
unfoldable pub after_last_end : Bytes → Bytes
after_last_end [] = []
after_last_end (b ∷ s) = if line_ends (b ∷ s) == 0 then b ∷ s else after_last_end s

-- The first line of a list goes on with one byte more.
abbrev prepend : ℕ → List Bytes → List Bytes
prepend b [] = []
prepend b (line ∷ lines) = (b ∷ line) ∷ lines

-- The lines of a buffer that end, in order.
unfoldable pub complete_lines : Bytes → List Bytes
complete_lines [] = []
complete_lines (b ∷ s) =
    let lines = complete_lines s in if b == b'\n' then [] ∷ lines else prepend b lines

-- A buffer without a line end keeps all its bytes.
pub after_last_end-none : (s : Bytes) → line_ends s ≡ 0 → after_last_end s ≡ s
unfolding after_last_end
after_last_end-none [] h = refl
after_last_end-none (b ∷ s) h = ground (arith, h)

pub find_line-none : (s : Bytes) → find_line s ≡ none → (line_ends s ≡ 0) × (complete_lines s ≡ [])
unfolding find_line line_ends complete_lines
find_line-none [] h = (refl, refl)
find_line-none (b ∷ s) h = elim (Option-cases (find_line s)) [
  | inl e ↦ ground (arith, find_line-none s e)
  | inr ((l, m), e) ↦ ground arith
]

-- The first line takes one line end, and what it leaves has the same bytes behind the last one.
pub find_line-some :
    (s line more : Bytes)
    → find_line s ≡ some (line, more)
    → (line_ends s ≡ line_ends more + 1)
      × (after_last_end s ≡ after_last_end more)
      × (length more < length s)
      × (complete_lines s ≡ line ∷ complete_lines more)
unfolding find_line line_ends after_last_end complete_lines
find_line-some [] line more h = absurd (ground arith)
find_line-some (b ∷ s) line more h = elim (Option-cases (find_line s)) [
  | inl e ↦ ground (arith, find_line-none s e)
  | inr ((l, m), e) ↦ ground (arith, find_line-some s l m e)
]
