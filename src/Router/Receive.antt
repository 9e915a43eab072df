-- ===== src/Router/Receive.antt =====
-- How src/router.cpp reads a reply in the pieces that the network gives.
use redon.Prelude.{
  ◌+◌, ◌≤◌, ◌≡◌, refl, ap, sym, ◌∙◌, not, Bytes, List, [], ◌∷◌, ◌++◌, append_assoc, append-nil,
  arith, Option, none, some, ◌==◌, length, length-append,
}
use mathlib.Core.List.{flatten}
use redon.Text.Span.{Every}
use redon.Router.{max_reply, chop, Received, complete, pending, overlong, recv_bytes, recv_line}

-- A line that is read in one piece.
abbrev pub line_of : Received → Option Bytes
line_of (complete reply) = some reply
line_of (pending line) = none
line_of overlong = none

-- What follows a piece.
abbrev after : Received → Bytes → Received
after (pending line) t = recv_bytes line t
after r t = r

recv_bytes-append : (line s t : Bytes) → recv_bytes line (s ++ t) ≡ after (recv_bytes line s) t
unfolding recv_bytes
recv_bytes-append line [] t = refl
recv_bytes-append line (c ∷ s) t = ground (arith, recv_bytes-append (line ++ c ∷ []) s t)

received_step :
    (r : Received) (pieces : List Bytes)
    → ((line : Bytes) → recv_line line pieces ≡ line_of (recv_bytes line (flatten pieces)))
    → (elim r as (λ _. Option Bytes) [
      | complete reply ↦ some reply
      | overlong ↦ none
      | pending line ↦ recv_line line pieces
    ])
      ≡ line_of (after r (flatten pieces))
received_step (complete reply) pieces h = refl
received_step (pending line) pieces h = h line
received_step overlong pieces h = refl

-- The reply that is read off the pieces is the one that is read off the whole stream at once.
pub recv_line-flatten :
    (line : Bytes) (pieces : List Bytes)
    → recv_line line pieces ≡ line_of (recv_bytes line (flatten pieces))
unfolding recv_line recv_bytes flatten
recv_line-flatten line [] = refl
recv_line-flatten line (piece ∷ pieces) =
    received_step (recv_bytes line piece) pieces (λ l. recv_line-flatten l pieces)
    ∙ ap line_of (sym (recv_bytes-append line piece (flatten pieces)))

-- A shard's reply of at most the limit, with its line end, is received whole, whatever follows it.
pub recv_bytes-reply :
    (line reply more : Bytes)
    → Every (λ c. not (c == b'\n')) reply
    → length line + length reply ≤ max_reply
    → recv_bytes line (reply ++ b'\n' ∷ more) ≡ complete (chop (line ++ reply))
unfolding recv_bytes
recv_bytes-reply line [] more h le = ap (λ l. complete (chop l)) (sym (append-nil line))
recv_bytes-reply line (c ∷ reply) more h le = ground (
  arith,
  h,
  length-append line (c ∷ []),
  append_assoc line (c ∷ []) reply,
  recv_bytes-reply (line ++ c ∷ []) reply more,
)
