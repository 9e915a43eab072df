-- ===== src/Tests/Shards.antt =====
-- The router of src/router.cpp and src/server.cpp at concrete inputs.
use redon.Prelude.{
  ◌≡◌, refl, true, false, Bytes, List, [], ◌∷◌, some, arith, codes, is_empty, bytes_eq,
}
use mathlib.Core.List.{flatten}
use redon.Text.{is_space, skip_space, span_token}
use redon.Text.Span.{span}
use redon.Command.{say, skip_mark, trim_end, trim, next_token, to_upper, upper}
use redon.Command.Guards.{verb_of}
use redon.Router.{Router, Dial, recv_line, recv_bytes, shard_at, shard_for, forward_to}
use redon.Router.Receive.{line_of, recv_line-flatten}
use redon.Server.{verb_and_key, route_line}
use redon.Server.Tokens.{key_of, verb_and_key-parse}
use redon.Server.Routing.{is_local, route_line-shard}

abbrev pieces : List Bytes
pieces = codes "hel" ∷ codes "lo\r\nrest" ∷ []

recv_line-flatten_example : recv_line [] pieces ≡ line_of (recv_bytes [] (flatten pieces))
recv_line-flatten_example = recv_line-flatten [] pieces

verb_and_key-parse_example :
    verb_and_key (codes "  set  name  x  ")
    ≡ (verb_of (codes "  set  name  x  "), key_of (codes "  set  name  x  "))
verb_and_key-parse_example = verb_and_key-parse (codes "  set  name  x  ")

abbrev shards : Router
shards = codes "a:1" ∷ codes "b:1" ∷ []

-- A network where every shard answers with the line that it got.
abbrev echo : Dial
echo host port = some (record { sent = λ s. true; pieces = λ s. s ∷ [] })

abbrev line : Bytes
line = codes "get name"

parts :
    (is_empty (verb_of line) ≡ false)
    × (is_local (verb_of line) ≡ false)
    × (is_empty (key_of line) ≡ false)
unfolding trim skip_mark trim_end next_token span_token skip_space span is_space to_upper upper
    bytes_eq
parts = (refl, refl, refl)

route_line-shard_example :
    (s : Bytes) × (shard_at shards (shard_for shards (key_of line)) ≡ some s)
    × (route_line echo shards line ≡ say (forward_to echo s line))
route_line-shard_example = route_line-shard echo shards line (omega arith) parts.0 parts.1 parts.2
