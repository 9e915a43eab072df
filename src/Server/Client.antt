-- ===== src/Server/Client.antt =====
-- `handle_client` of src/server.cpp: the bytes of a connection cut into lines, each line answered,
-- counted and replied to. Sockets, clock and the text of INFO are parameters.
pub mod Buffer
pub mod Counts
pub mod Framing
use redon.Prelude.{
  ℕ, zero, suc, ◌+◌, ◌*◌, Bool, true, false, not, ◌&&◌, ◌||◌, Bytes, List, [], ◌∷◌, ◌++◌, Option,
  none, some, codes, bytes_eq, ltb, ◌==◌, if◌then◌else◌, is_empty, length, take,
}
use redon.Storage
use redon.Storage.{Storage}
use redon.Raft.{RaftNode, Moment}
use redon.Command.{World, Answer, execute_line, linked}
use redon.Router.{Router, Dial}
use redon.Metrics.{Metrics, on_command, on_get, on_latency}
use redon.Server.{verb_and_key, route_line}

abbrev pub max_line_length : ℕ
max_line_length = 64 * 1024

-- The server, as far as a line can reach it.
pub record Server : Type 0 where
  pub is_follower : Bool
  pub store : Storage
  pub raft : Option RaftNode
  pub router : Option Router
  pub metrics : Metrics

-- The surroundings of the `n`th line: the clock before it, how long it took in nanoseconds, whether the
-- reply could be sent, and what INFO prints.
pub record Surroundings : Type 0 where
  pub dial : Dial
  pub info : Metrics → ℕ → Bytes
  pub moment : ℕ → Moment
  pub elapsed : ℕ → ℕ
  pub deliver : ℕ → Bool

-- A connection: its unread bytes, its flag, the lines served and the lines sent, in order.
pub record Client : Type 0 where
  pub inbuf : Bytes
  pub is_replica_link : Bool
  pub served : ℕ
  pub sent : List Bytes

-- What a line leaves.
pub record Served : Type 0 where
  pub server : Server
  pub link : Bool
  pub answer : Answer
  pub hit : Bool

unfoldable pub answer_line : Surroundings → Bytes → Bytes → Server → Client → Served
answer_line env verb line s c =
    if bytes_eq verb (codes "INFO")
    then record {
      server = s;
      link = c.is_replica_link;
      answer = record { should_close = false; reply = env.info s.metrics (Storage.size s.store) };
      hit = false;
    }
    else elim s.router [
      | some r ↦ record {
        server = s;
        link = c.is_replica_link;
        answer = route_line env.dial r line;
        hit = false;
      }
      | none ↦
          let (w, answer) = execute_line s.is_follower (env.moment c.served) line (record {
            store = s.store;
            replica_link = some c.is_replica_link;
            raft = s.raft;
            get_hit = some false;
          }) in
          record {
            server = record s { store = w.store; raft = w.raft };
            link = linked w.replica_link;
            answer = answer;
            hit = linked w.get_hit;
          }
    ]

abbrev pub starts_with : Bytes → Bytes → Bool
starts_with front s = bytes_eq (take (length front) s) front

-- A GET that was answered is a hit or a miss: by the lookup, or on a router by the reply.
unfoldable pub count_get : Option Router → Bytes → Bool → Bool → Bytes → Metrics → Metrics
count_get router verb err hit reply m =
    if bytes_eq verb (codes "GET") && not err
    then on_get (elim router [ none ↦ hit | some r ↦ not (bytes_eq reply (codes "(nil)")) ]) m
    else m

-- The counting of one line: blank lines, the replicated stream and the inner verbs are left out.
unfoldable pub count_line : ℕ → Bool → Bytes → Served → Metrics → Metrics
count_line elapsed was_link verb r m =
    let err = starts_with (codes "ERR") r.answer.reply in
    if not (is_empty verb) && not was_link && not (starts_with (codes "__") verb)
    then count_get r.server.router verb err r.hit r.answer.reply
        (on_command verb err (on_latency elapsed m))
    else m

-- One line; the last component is whether the connection goes on.
unfoldable pub serve_line : Surroundings → Bytes → Server → Client → Server × Client × Bool
serve_line env line s c =
    let verb = (verb_and_key line).0 in
    let r = answer_line env verb line s c in
    let counted = count_line (env.elapsed c.served) c.is_replica_link verb r r.server.metrics in
    let s' = record r.server { metrics = counted } in
    let c' = record c { is_replica_link = r.link; served = c.served + 1 } in
    if c.is_replica_link
    then (s', c', not r.answer.should_close)
    else if env.deliver c.served
    then (s', record c' { sent = c.sent ++ r.answer.reply ∷ [] }, not r.answer.should_close)
    else (s', c', false)

-- The bytes before and after the first line end.
unfoldable pub find_line : Bytes → Option (Bytes × Bytes)
find_line [] = none
find_line (b ∷ s) =
    let rest = find_line s in
    if b == b'\n'
    then some ([], s)
    else elim rest [ none ↦ none | some (line, more) ↦ some (b ∷ line, more) ]

-- The loop over the complete lines of the buffer; a line takes a byte, so its length is fuel enough.
unfoldable pub serve_lines : Surroundings → ℕ → Server → Client → Server × Client × Bool
serve_lines env zero s c = (s, c, true)
serve_lines env (suc fuel) s c = elim (find_line c.inbuf) [
  | none ↦ (s, c, true)
  | some (line, more) ↦
      let (s', c', go) = serve_line env line s (record c { inbuf = more }) in
      let rest = serve_lines env fuel s' c' in if go then rest else (s', c', false)
]

unfoldable pub is_overlong : Client → Bool
is_overlong c = ltb max_line_length (length c.inbuf)

unfoldable pub refuse_line : Client → Client
refuse_line c = record c { sent = c.sent ++ codes "ERR line too long" ∷ [] }

-- The chunks that `recv` returns, until it fails or the peer closes.
unfoldable pub handle_client : Surroundings → List Bytes → Server → Client → Server × Client
handle_client env [] s c = (s, if is_overlong c then refuse_line c else c)
handle_client env (chunk ∷ chunks) s c =
    let c' = record c { inbuf = c.inbuf ++ chunk } in
    let (s', c'', go) = serve_lines env (length c'.inbuf) s c' in
    let rest = handle_client env chunks s' c'' in
    if is_overlong c then (s, refuse_line c) else if go then rest else (s', c'')
