-- ===== src/Router.antt =====
-- src/router.h and src/router.cpp: which shard a key lives on, and the forwarding of a line. What the
-- shard sends is a parameter: the pieces that `recv` returns until it fails.
pub mod Receive
pub mod Sharding
use Prim.Native.Nat.{bit_xor}
use redon.Prelude.{
  ℕ, zero, suc, ◌+◌, ◌*◌, ◌/◌, ◌%◌, ◌^◌, Bool, true, false, not, ◌&&◌, ◌||◌, Bytes, List, [], ◌∷◌,
  ◌++◌, foldl, Option, none, some, codes, ltb, leb, ◌==◌, if◌then◌else◌, is_empty, length,
}
use redon.Text.Address.{split_host_port}

abbrev pub max_reply : ℕ
max_reply = 128 * 1024

-- One round of the hash, on a 64-bit word.
unfoldable pub fnv_step : ℕ → ℕ → ℕ
fnv_step h c = (bit_xor h c * 1099511628211) % 2 ^ 64

unfoldable pub fnv1a : Bytes → ℕ
unfolding fnv_step
fnv1a s = foldl fnv_step 1469598103934665603 s

abbrev pub Router : Type 0
Router = List Bytes

-- The remainder by the number of shards; of no shard it is 0.
unfoldable pub shard_for : Router → Bytes → ℕ
shard_for [] key = 0
shard_for (s ∷ ss) key = fnv1a key % length (s ∷ ss)

unfoldable pub shard_at : Router → ℕ → Option Bytes
shard_at [] i = none
shard_at (s ∷ ss) zero = some s
shard_at (s ∷ ss) (suc i) = shard_at ss i

-- Without a carriage return at its end.
unfoldable pub chop : Bytes → Bytes
chop [] = []
chop (c ∷ []) = if c == b'\r' then [] else c ∷ []
chop (c ∷ d ∷ s) = c ∷ chop (d ∷ s)

-- How the bytes of one piece end: in a line, in a line that is too long, or inside the line so far.
pub data Received : Type 0 where
  complete pending : Bytes → Received
  overlong : Received

unfoldable pub recv_bytes : Bytes → Bytes → Received
recv_bytes line [] = pending line
recv_bytes line (c ∷ s) =
    if c == b'\n'
    then complete (chop line)
    else if ltb max_reply (length (line ++ c ∷ []))
    then overlong
    else recv_bytes (line ++ c ∷ []) s

-- The pieces in turn; their end is a `recv` that fails.
unfoldable pub recv_line : Bytes → List Bytes → Option Bytes
recv_line line [] = none
recv_line line (piece ∷ pieces) = elim (recv_bytes line piece) [
  | complete reply ↦ some reply
  | overlong ↦ none
  | pending line' ↦ recv_line line' pieces
]

-- A connection to an address, where one is made, takes a request whole or not at all, and answers.
pub record Connection : Type 0 where
  pub sent : Bytes → Bool
  pub pieces : Bytes → List Bytes

abbrev pub Dial : Type 0
Dial = Bytes → ℕ → Option Connection

unfoldable pub ask : Connection → Bytes → Option Bytes
ask c request = if c.sent request then recv_line [] (c.pieces request) else none

unfoldable pub forward_to : Dial → Bytes → Bytes → Bytes
forward_to dial shard command_line = elim (split_host_port shard) [
  | none ↦ codes "ERR ROUTER: invalid shard address '" ++ shard ++ codes "'"
  | some (host, port) ↦ elim (dial host port) [
    | none ↦ codes "ERR ROUTER: shard " ++ shard ++ codes " is unreachable"
    | some c ↦ elim (ask c (command_line ++ codes "\n")) [
      | none ↦ codes "ERR ROUTER: shard " ++ shard ++ codes " request failed"
      | some reply ↦ reply
    ]
  ]
]

unfoldable pub forward : Dial → Router → ℕ → Bytes → Bytes
forward dial shards i command_line = elim (shard_at shards i) [
  | none ↦ codes "ERR ROUTER: no such shard"
  | some shard ↦ forward_to dial shard command_line
]
