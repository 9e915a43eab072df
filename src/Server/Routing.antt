-- ===== src/Server/Routing.antt =====
-- The routing of a line in src/server.cpp, against the hash of src/router.cpp.
use redon.Prelude.{
  ◌<◌, ◌≡◌, ap, Bool, false, ◌||◌, Bytes, arith, is_empty, bytes_eq, codes, length, some,
}
use redon.Command.{say}
use redon.Command.Guards.{verb_of}
use redon.Router.{Router, Dial, shard_at, shard_for, forward_to}
use redon.Router.Sharding.{forward-shard_for}
use redon.Server.{route_line}
use redon.Server.Tokens.{key_of, verb_and_key-parse}

-- The commands that the router answers itself.
abbrev pub is_local : Bytes → Bool
is_local verb =
    bytes_eq verb (codes "QUIT") || bytes_eq verb (codes "EXIT") || bytes_eq verb (codes "PING")

-- A line with a verb that is not the router's own and with a key is answered by one shard: the one
-- that the hash of the key names, where the key is what the shard's own parser reads off the line.
pub route_line-shard :
    (dial : Dial) (r : Router) (line : Bytes)
    → 0 < length r
    → is_empty (verb_of line) ≡ false
    → is_local (verb_of line) ≡ false
    → is_empty (key_of line) ≡ false
    → (s : Bytes) × (shard_at r (shard_for r (key_of line)) ≡ some s)
      × (route_line dial r line ≡ say (forward_to dial s line))
unfolding route_line
route_line-shard dial r line pos verb distant key =
    let (s, e, sent) = forward-shard_for dial r (key_of line) line pos in
    (
      s,
      e,
      ground (
        arith,
        ap (λ t. t.0) (verb_and_key-parse line),
        ap (λ t. t.1) (verb_and_key-parse line),
        sent,
      ),
    )
