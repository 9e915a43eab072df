-- ===== src/Server/Tokens.antt =====
-- The verb and the key of a line, as the router of src/server.cpp and the parser of src/command.cpp read them.
use mathlib.Core.Path.{ap₂}
use redon.Prelude.{◌≡◌, refl, ap, sym, ◌∙◌, Bytes, [], ◌∷◌, arith, is_empty_nil}
use redon.Text.{skip_space, span_token}
use redon.Text.Span.{span}
use redon.Command.{skip_mark, trim_end, trim, next_token, to_upper}
use redon.Command.Guards.{verb_of}
use redon.Server.{verb_and_key}

-- The key that a line is run with.
abbrev pub key_of : Bytes → Bytes
key_of line = (next_token (next_token (trim line)).1).0

skip_space-trim_end : (s : Bytes) → skip_space (trim_end s) ≡ trim_end (skip_space s)
unfolding skip_space span trim_end
skip_space-trim_end [] = refl
skip_space-trim_end (c ∷ s) = ground (arith, skip_space-trim_end s, is_empty_nil (trim_end s))

-- The whitespace at the end of a line belongs to no token.
next_token-trim_end :
    (s : Bytes)
    → ((next_token (trim_end s)).0 ≡ (next_token s).0)
      × ((next_token (trim_end s)).1 ≡ trim_end (next_token s).1)
unfolding next_token span_token span trim_end skip_space
next_token-trim_end [] = (refl, refl)
next_token-trim_end (c ∷ s) = ground (
  arith,
  skip_space-trim_end s,
  skip_space-trim_end (c ∷ s),
  next_token-trim_end s,
  is_empty_nil (trim_end s),
)

-- For every line, the router hashes the key that the shard will store, and reads the verb that the
-- shard will run: marks, blanks and trailing whitespace included.
pub verb_and_key-parse : (line : Bytes) → verb_and_key line ≡ (verb_of line, key_of line)
unfolding verb_and_key trim next_token
verb_and_key-parse line =
    let s = skip_mark (skip_space line) in
    let (verb, rest) = next_token-trim_end s in
    ap₂ (λ v k. (to_upper v, k)) (sym verb)
      (sym (ap (λ r. (next_token r).0) rest ∙ (next_token-trim_end (next_token s).1).0))
