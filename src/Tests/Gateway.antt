-- ===== src/Tests/Gateway.antt =====
-- The gateway of src/web.cpp at concrete inputs.
use redon.Prelude.{
  ◌≤◌, ◌≡◌, refl, true, false, Bytes, List, [], ◌∷◌, ◌++◌, some, arith, codes, is_empty, length,
  drop, take,
}
use mathlib.Core.List.{flatten}
use redon.Text.Span.{span}
use redon.Router.{Dial, chop}
use redon.Web.{
  max_request, recv_bytes, recv_line, json_escape, WebGateway, forward_to_redon, route, first_line,
  trim_back, split_head, parse_content_length, handle_connection,
}
use redon.Web.Json.{read_string, between, read_string-json_escape}
use redon.Web.Lines.{find_line-first_line}
use redon.Web.Request.{respond, handle_connection-flatten}
use redon.Web.Posted.{opening, posted_command}
use redon.Server.Client.{find_line}

abbrev gateway : WebGateway
gateway = record {
  redon_host = codes "127.0.0.1";
  redon_port = 6379;
  index_page = codes "<html></html>";
}

-- A server that answers each line in two pieces, with a quote in the reply.
abbrev answering : Dial
answering host port =
    some (record { sent = λ request. true; pieces = λ request. codes "a\"" ∷ codes "b\r\n" ∷ [] })

abbrev reply : Bytes
reply = codes "a\"b"

abbrev posted : Bytes
posted = codes " GET k\r\nCLEAR"

posted_some : is_empty (first_line posted) ≡ false
unfolding first_line span trim_back
posted_some = refl

received : forward_to_redon answering gateway (first_line posted) ≡ some reply
unfolding forward_to_redon recv_line recv_bytes chop
received = refl

posted_command_example :
    (head body : Bytes) × (split_head (route answering gateway (codes "POST") (codes "/cmd") posted)
      ≡ some (head, body))
    × (parse_content_length head ≡ length body)
    × (take (length opening) body ≡ opening)
    × (read_string between (drop (length opening) body) ≡ some (reply, codes "}"))
posted_command_example = posted_command answering gateway posted reply posted_some received

-- A request in three pieces, the blank line cut in two.
abbrev chunks : List Bytes
chunks = codes "POST /cmd HTTP/1.1\r\nContent-Length: 6\r\n\r" ∷ codes "\nGET" ∷ codes " k!!" ∷ []

chunks_fit : length (flatten chunks) ≤ max_request
unfolding flatten
chunks_fit = omega arith

handle_connection-flatten_example :
    handle_connection answering gateway chunks
    ≡ respond answering gateway (split_head (flatten chunks))
handle_connection-flatten_example = handle_connection-flatten answering gateway chunks chunks_fit

read_string-json_escape_example :
    read_string between (json_escape reply ++ b'"' ∷ codes "}") ≡ some (reply, codes "}")
read_string-json_escape_example = read_string-json_escape reply (codes "}")

find_line-first_line_example :
    find_line (first_line posted ++ b'\n' ∷ []) ≡ some (first_line posted, [])
find_line-first_line_example = find_line-first_line posted
