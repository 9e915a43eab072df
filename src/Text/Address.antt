-- ===== src/Text/Address.antt =====
-- Addresses and reply lines: `split_host_port` of src/router.cpp and src/raft.cpp, and the tokens that
-- `>>` reads off a line.
pub mod Words
use redon.Prelude.{
  ℕ, zero, suc, Bool, true, false, Bytes, List, [], ◌∷◌, ◌++◌, Option, none, some, ltb, leb, ◌==◌,
  if◌then◌else◌, is_empty, length, ◌&&◌, ◌||◌,
}
use redon.Text.{skip_space, span_token}
use redon.Text.Integer.{ℤ, pos, negsuc, stoi}

-- The bytes before and after the last `c`.
unfoldable pub rsplit : ℕ → Bytes → Option (Bytes × Bytes)
rsplit c [] = none
rsplit c (b ∷ s) = elim (rsplit c s) [
  | some (front, back) ↦ some (b ∷ front, back)
  | none ↦ if b == c then some ([], s) else none
]

unfoldable pub port_of : Option ℤ → Option ℕ
port_of (some (pos p)) = if leb 1 p && leb p 65535 then some p else none
port_of _ = none

unfoldable pub split_host_port : Bytes → Option (Bytes × ℕ)
split_host_port addr = elim (rsplit b':' addr) [
  | none ↦ none
  | some (host, digits) ↦
      if is_empty host || is_empty digits
      then none
      else elim (port_of (stoi digits)) [ none ↦ none | some port ↦ some (host, port) ]
]

-- The whitespace-separated words of a line. Each word takes a byte, so a line's length is fuel enough.
unfoldable pub tokens_loop : ℕ → Bytes → List Bytes
tokens_loop zero s = []
tokens_loop (suc fuel) s =
    let (word, s') = span_token (skip_space s) in
    let rest = tokens_loop fuel s' in if is_empty word then [] else word ∷ rest

unfoldable pub tokens : Bytes → List Bytes
tokens s = tokens_loop (length s) s
