-- ===== src/Web/Posted.antt =====
-- The command that a browser posts, through src/web.cpp, and its reply.
use redon.Prelude.{
  ℕ, ◌*◌, ◌^◌, ◌<◌, ◌≤◌, ◌≡◌, refl, ap, ◌∙◌, false, Bytes, List, [], ◌∷◌, ◌++◌, Option, none, some,
  arith, codes, bytes_eq, ltb, ◌==◌, if◌then◌else◌, Bool-cases, inl, inr, length, length-append,
  is_empty, drop, take,
}
use redon.Router.{chop, Dial, Connection, Received, complete, pending, overlong}
use redon.Web.{
  max_reply, recv_bytes, recv_line, escape, json_escape, http_response, json, WebGateway,
  forward_to_redon, run_command, route, first_line, split_head, parse_content_length,
}
use redon.Web.Json.{read_string, between, read_string-json_escape}
use redon.Web.Response.{split_head-http_response}

length-chop : (line : Bytes) → length (chop line) ≤ length line
unfolding chop
length-chop [] = omega arith
length-chop (c ∷ []) = ground arith
length-chop (c ∷ d ∷ line) = ground (arith, length-chop (d ∷ line))

-- A line that was received whole, and the part of one, are within the limit.
abbrev Fits : Received → Type 0
Fits (complete reply) = length reply ≤ max_reply
Fits (pending line) = length line ≤ max_reply
Fits overlong = Unit

recv_bytes-Fits : (line s : Bytes) → length line ≤ max_reply → Fits (recv_bytes line s)
unfolding recv_bytes
recv_bytes-Fits line [] h = h
recv_bytes-Fits line (c ∷ s) h = elim (Bool-cases (c == b'\n')) [
  | inl e ↦ rw (e, recv_bytes) (omega (arith, length-chop line))
  | inr e ↦ elim (Bool-cases (ltb max_reply (length (line ++ c ∷ [])))) [
    | inl long ↦ rw (e, long, recv_bytes) tt
    | inr short ↦
        rw (e, short, recv_bytes) (recv_bytes-Fits (line ++ c ∷ []) s (ground (arith, short)))
  ]
]

recv_line_fits :
    (line : Bytes) (pieces : List Bytes) (reply : Bytes)
    → length line ≤ max_reply
    → recv_line line pieces ≡ some reply
    → length reply ≤ max_reply
unfolding recv_line
recv_line_fits line [] reply h e = absurd (ground (arith, e))
recv_line_fits line (piece ∷ pieces) reply h e =
    after (λ line' fits found. recv_line_fits line' pieces reply fits found) (recv_bytes line piece)
      (recv_bytes-Fits line piece h) e
  where
    after :
        ((line' : Bytes)
          → length line' ≤ max_reply
          → recv_line line' pieces ≡ some reply
          → length reply ≤ max_reply)
        → (r : Received) → Fits r
        → elim r [
          | complete found ↦ some found
          | overlong ↦ none
          | pending line' ↦ recv_line line' pieces
        ]
          ≡ some reply
        → length reply ≤ max_reply
    after go (complete found) fits e = ground (arith, e)
    after go (pending line') fits e = go line' fits e
    after go overlong fits e = absurd (ground (arith, e))

length-escape : (c : ℕ) → length (escape c) ≤ 6
unfolding escape
length-escape c = ground arith

length-json_escape : (s : Bytes) → length (json_escape s) ≤ 6 * length s
unfolding json_escape
length-json_escape [] = omega arith
length-json_escape (c ∷ s) =
    omega (arith, length-append (escape c) (json_escape s), length-escape c, length-json_escape s)

forward_fits :
    (dial : Dial) (g : WebGateway) (cmd reply : Bytes)
    → forward_to_redon dial g cmd ≡ some reply
    → length reply ≤ max_reply
unfolding forward_to_redon
forward_fits dial g cmd reply e = after (dial g.redon_host g.redon_port) e
  where
    after :
        (o : Option Connection)
        → elim o [
          | none ↦ none
          | some c ↦
              let request = cmd ++ b'\n' ∷ [] in
              if c.sent request then recv_line [] (c.pieces request) else none
        ]
          ≡ some reply
        → length reply ≤ max_reply
    after none e = absurd (ground (arith, e))
    after (some c) e = elim (Bool-cases (c.sent (cmd ++ b'\n' ∷ []))) [
      | inl sent ↦
          recv_line_fits [] (c.pieces (cmd ++ b'\n' ∷ [])) reply (omega arith) (ground (arith, e))
      | inr lost ↦ absurd (ground (arith, e))
    ]

abbrev pub opening : Bytes
opening = codes "{\"ok\":true,\"reply\":\""

-- The body of a response to a command that the server answered.
abbrev pub answer : Bytes → Bytes
answer reply = opening ++ (json_escape reply ++ codes "\"}")

length-answer : (reply : Bytes) → length reply ≤ max_reply → length (answer reply) < 2 ^ 63
length-answer reply h =
    omega (arith, length-append (json_escape reply) (codes "\"}"), length-json_escape reply)

route_command :
    (dial : Dial) (g : WebGateway) (body : Bytes)
    → route dial g (codes "POST") (codes "/cmd") body ≡ run_command dial g (first_line body)
unfolding route bytes_eq
route_command dial g body = refl

answered :
    (dial : Dial) (g : WebGateway) (cmd reply : Bytes)
    → is_empty cmd ≡ false
    → forward_to_redon dial g cmd ≡ some reply
    → run_command dial g cmd ≡ http_response (codes "200 OK") json (answer reply)
unfolding run_command
answered dial g cmd reply some_byte e = rw (some_byte, e, run_command) refl

-- A command that a browser posts and the server answers: a reader of the response finds a blank line, a
-- body of the length that the headers announce, which begins with the JSON object's opening up to the quote
-- of the reply, and behind it a literal
-- that reads as the server's reply, byte for byte, with nothing behind it but the closing brace.
pub posted_command :
    (dial : Dial) (g : WebGateway) (posted reply : Bytes)
    → is_empty (first_line posted) ≡ false
    → forward_to_redon dial g (first_line posted) ≡ some reply
    → (head body : Bytes) × (split_head (route dial g (codes "POST") (codes "/cmd") posted)
        ≡ some (head, body))
      × (parse_content_length head ≡ length body)
      × (take (length opening) body ≡ opening)
      × (read_string between (drop (length opening) body) ≡ some (reply, codes "}"))
posted_command dial g posted reply some_byte e =
    let (head, found, size) =
      split_head-http_response (codes "200 OK") json (answer reply) refl refl
        (length-answer reply (forward_fits dial g (first_line posted) reply e)) in
    (
      head,
      answer reply,
      ap split_head
            (route_command dial g posted ∙ answered dial g (first_line posted) reply some_byte e)
          ∙ found,
      size,
      refl,
      read_string-json_escape reply (codes "}"),
    )
