-- ===== src/Web.antt =====
-- src/web.cpp: the browser's gateway. A request is read off a connection in the pieces that `recv`
-- returns, routed, and a command is sent on to the server of the store. The page, which is an asset, the
-- sockets and the server's answers are parameters.
pub mod HeaderLines
pub mod Json
pub mod Lines
pub mod Response
pub mod Posted
pub mod Request
use Prim.Native.Nat.{bit_and}
use redon.Prelude.{
  ℕ, zero, suc, ◌+◌, ◌-◌, ◌/◌, ◌%◌, ◌^◌, Bool, true, false, not, ◌&&◌, ◌||◌, Bytes, List, [], ◌∷◌,
  ◌++◌, map, Option, none, some, codes, bytes_eq, ltb, leb, ◌==◌, if◌then◌else◌, is_empty, length,
  take, drop, ◌*◌,
}
use redon.Text.{skip_space, span_token}
use redon.Text.Span.{span}
use redon.Text.Decimal.{to_string}
use redon.Text.Integer.{ℤ, pos, negsuc, stol}
use redon.Router.{Dial, Connection, Received, complete, pending, overlong, chop}

abbrev pub max_request : ℕ
max_request = 1024 * 1024

abbrev pub max_reply : ℕ
max_reply = 256 * 1024

-- One piece of a reply of the server.
unfoldable pub recv_bytes : Bytes → Bytes → Received
recv_bytes line [] = pending line
recv_bytes line (c ∷ s) =
    if c == b'\n'
    then complete (chop line)
    else if ltb max_reply (length (line ++ c ∷ []))
    then overlong
    else recv_bytes (line ++ c ∷ []) s

unfoldable pub recv_line : Bytes → List Bytes → Option Bytes
recv_line line [] = none
recv_line line (piece ∷ pieces) = elim (recv_bytes line piece) [
  | complete reply ↦ some reply
  | overlong ↦ none
  | pending line' ↦ recv_line line' pieces
]

abbrev pub lower : ℕ → ℕ
lower c = if leb b'A' c && leb c b'Z' then c - b'A' + b'a' else c

unfoldable pub ascii_lower : Bytes → Bytes
ascii_lower s = map lower s

-- The bytes before and after the first `c`.
unfoldable pub cut_at : ℕ → Bytes → Option (Bytes × Bytes)
cut_at c [] = none
cut_at c (b ∷ s) =
    let rest = cut_at c s in
    if b == c
    then some ([], s)
    else elim rest [ none ↦ none | some (front, back) ↦ some (b ∷ front, back) ]

-- The value of a header line, if the line is the header's; `none` goes on to the next line.
unfoldable pub length_of : Option ℤ → ℕ
length_of none = 0
length_of (some (negsuc n)) = 0
length_of (some (pos n)) = n

unfoldable pub header_length : Bytes → Option ℕ
header_length line = elim (cut_at b':' (chop line)) [
  | none ↦ none
  | some (name, text) ↦
      if bytes_eq (ascii_lower name) (codes "content-length")
      then some (length_of (stol text))
      else none
]

-- The lines of a text, as `std::getline` takes them; a text that ends with a line end has no more.
unfoldable pub get_lines : Bytes → List Bytes
get_lines [] = []
get_lines (c ∷ s) =
    let rest = get_lines s in
    if c == b'\n'
    then [] ∷ rest
    else elim rest [ [] ↦ (c ∷ []) ∷ [] | line ∷ lines ↦ (c ∷ line) ∷ lines ]

unfoldable pub first_length : List Bytes → ℕ
first_length [] = 0
first_length (line ∷ lines) = elim (header_length line) [ some n ↦ n | none ↦ first_length lines ]

unfoldable pub parse_content_length : Bytes → ℕ
parse_content_length headers = first_length (get_lines headers)

abbrev pub is_blank : ℕ → Bool
is_blank c = c == b' ' || c == b'\t'

abbrev pub is_line_end : ℕ → Bool
is_line_end c = c == b'\r' || c == b'\n'

unfoldable pub trim_back : Bytes → Bytes
trim_back [] = []
trim_back (c ∷ s) = let rest = trim_back s in if is_empty rest && is_blank c then [] else c ∷ rest

-- The first line, without the blanks around it.
unfoldable pub first_line : Bytes → Bytes
first_line s = trim_back (span is_blank (span (λ c. not (is_line_end c)) s).0).1

unfoldable pub hex_digit : ℕ → ℕ
hex_digit n = if ltb n 10 then b'0' + n else b'a' + (n - 10)

unfoldable pub escape : ℕ → Bytes
escape c =
    if c == b'"'
    then codes "\\\""
    else if c == b'\\'
    then codes "\\\\"
    else if c == b'\n'
    then codes "\\n"
    else if c == b'\r'
    then codes "\\r"
    else if c == b'\t'
    then codes "\\t"
    else if ltb c 0x20
    then codes "\\u00" ++ hex_digit (c / 16 % 16) ∷ hex_digit (c % 16) ∷ []
    else c ∷ []

unfoldable pub json_escape : Bytes → Bytes
json_escape [] = []
json_escape (c ∷ s) = escape c ++ json_escape s

abbrev pub line_end : Bytes
line_end = b'\r' ∷ b'\n' ∷ []

unfoldable pub http_response : Bytes → Bytes → Bytes → Bytes
http_response status ctype body =
    codes "HTTP/1.1 "
    ++ (status
        ++ (line_end
            ++ (codes "Content-Type: "
                ++ (ctype
                    ++ (line_end
                        ++ (codes "Content-Length: "
                            ++ (to_string (length body)
                                ++ (line_end
                                    ++ (codes "Access-Control-Allow-Origin: *"
                                        ++ (line_end
                                            ++ (codes
                                                  "Access-Control-Allow-Methods: GET, POST, OPTIONS"
                                                ++ (line_end
                                                    ++ (codes "Cache-Control: no-store"
                                                        ++ (line_end
                                                            ++ (codes "Connection: close"
                                                            ++ (line_end
                                                            ++ (line_end ++ body)))))))))))))))))

pub record WebGateway : Type 0 where
  pub redon_host : Bytes
  pub redon_port : ℕ
  pub index_page : Bytes

-- `none` is a server that does not answer.
unfoldable pub forward_to_redon : Dial → WebGateway → Bytes → Option Bytes
forward_to_redon dial g line = elim (dial g.redon_host g.redon_port) [
  | none ↦ none
  | some c ↦
      let request = line ++ b'\n' ∷ [] in
      if c.sent request then recv_line [] (c.pieces request) else none
]

abbrev pub plain : Bytes
plain = codes "text/plain"

abbrev pub json : Bytes
json = codes "application/json"

unfoldable pub run_command : Dial → WebGateway → Bytes → Bytes
run_command dial g cmd =
    if is_empty cmd
    then http_response (codes "400 Bad Request") json
        (codes "{\"ok\":false,\"error\":\"empty command\"}")
    else elim (forward_to_redon dial g cmd) [
      | none ↦
          let err =
            codes "Redon server unreachable at "
            ++ (g.redon_host ++ b':' ∷ to_string g.redon_port) in
          http_response (codes "502 Bad Gateway") json
            (codes "{\"ok\":false,\"error\":\"" ++ (json_escape err ++ codes "\"}"))
      | some reply ↦
          http_response (codes "200 OK") json
            (codes "{\"ok\":true,\"reply\":\"" ++ (json_escape reply ++ codes "\"}"))
    ]

unfoldable pub route : Dial → WebGateway → Bytes → Bytes → Bytes → Bytes
route dial g method path body =
    let is_get = bytes_eq method (codes "GET") in
    if bytes_eq method (codes "OPTIONS")
    then http_response (codes "204 No Content") plain []
    else if is_get && (bytes_eq path (codes "/") || bytes_eq path (codes "/index.html"))
    then http_response (codes "200 OK") (codes "text/html; charset=utf-8") g.index_page
    else if is_get && bytes_eq path (codes "/healthz")
    then http_response (codes "200 OK") plain (codes "ok")
    else if is_get && bytes_eq path (codes "/favicon.ico")
    then http_response (codes "204 No Content") plain []
    else if bytes_eq method (codes "POST") && bytes_eq path (codes "/cmd")
    then run_command dial g (first_line body)
    else http_response (codes "404 Not Found") plain (codes "not found")

-- The bytes before and after the first blank line.
unfoldable pub split_head : Bytes → Option (Bytes × Bytes)
split_head [] = none
split_head (c ∷ s) =
    let rest = split_head s in
    if bytes_eq (take 4 (c ∷ s)) (codes "\r\n\r\n")
    then some ([], drop 4 (c ∷ s))
    else elim rest [ none ↦ none | some (head, body) ↦ some (c ∷ head, body) ]

-- The headers are read, with what came behind them and the pieces to come; or the peer is gone, or the
-- request is too large.
pub data Headers : Type 0 where
  got : Bytes → Bytes → List Bytes → Headers
  closed too_large : Headers

unfoldable pub read_head : Bytes → List Bytes → Headers
read_head buf [] = elim (split_head buf) [ some (head, body) ↦ got head body [] | none ↦ closed ]
read_head buf (chunk ∷ chunks) =
    let rest = read_head (buf ++ chunk) chunks in
    elim (split_head buf) [
      | some (head, body) ↦ got head body (chunk ∷ chunks)
      | none ↦ if ltb max_request (length (buf ++ chunk)) then too_large else rest
    ]

unfoldable pub read_body : ℕ → Bytes → List Bytes → Bytes
read_body size body [] = body
read_body size body (chunk ∷ chunks) =
    let rest = read_body size (body ++ chunk) chunks in
    if ltb (length body) size
    then (if ltb max_request (length (body ++ chunk)) then body ++ chunk else rest)
    else body

-- The two words of the request line.
unfoldable pub request_line : Bytes → Bytes × Bytes
request_line head =
    let (method, rest) = span_token (skip_space head) in (method, (span_token (skip_space rest)).0)

-- The response to what a connection sends, if one is sent.
unfoldable pub handle_connection : Dial → WebGateway → List Bytes → Option Bytes
handle_connection dial g chunks = elim (read_head [] chunks) [
  | closed ↦ none
  | too_large ↦
      some (http_response (codes "413 Payload Too Large") plain (codes "request too large"))
  | got head first more ↦
      let size = parse_content_length head in
      let (method, path) = request_line head in
      some (route dial g method path (take size (read_body size first more)))
]
