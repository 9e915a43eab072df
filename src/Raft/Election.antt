-- ===== src/Raft/Election.antt =====
-- The two loops of src/raft.cpp that talk to the peers: an election and a round of heartbeats, and the
-- RPCs that they send. Between two locked regions the node is free for its other handlers.
use redon.Prelude.{
  ℕ, ◌+◌, Bool, true, false, not, ◌&&◌, Bytes, List, [], ◌∷◌, ◌++◌, Option, none, some, codes,
  bytes_eq, leb, ◌==◌, if◌then◌else◌,
}
use redon.Text.Integer.{ℤ, stol}
use redon.Text.Decimal.{to_string}
use redon.Text.Address.{split_host_port, tokens}
use redon.Raft.{
  candidate, leader, RaftNode, Moment, Reply, majority, newer, role_is_leader, role_is_candidate,
  become_follower_locked, reset_election_deadline_locked, request_vote, append_entries,
}

-- The network: the reply line of an address to a request, where one arrives in time.
abbrev pub Network : Type 0
Network = Bytes → ℕ → Bytes → Option Bytes

-- The words of a reply line, read as the reply of an RPC with this tag.
unfoldable pub read_reply : Bytes → List Bytes → Option Reply
read_reply tag (word ∷ term ∷ flag ∷ more) =
    if bytes_eq word tag
    then elim (stol term) [
      | none ↦ none
      | some t ↦ some (record { term = t; flag = bytes_eq flag (codes "1") })
    ]
    else none
read_reply tag _ = none

unfoldable pub send_rpc : Network → Bytes → Bytes → Bytes → ℕ → Bytes → Option Reply
send_rpc network request tag peer term self_id = elim (split_host_port peer) [
  | none ↦ none
  | some (host, port) ↦
      elim (network host port (request ++ (to_string term ++ b' ' ∷ (self_id ++ b'\n' ∷ [])))) [
        | none ↦ none
        | some line ↦ read_reply tag (tokens line)
      ]
]

unfoldable pub send_request_vote : Network → Bytes → ℕ → Bytes → Option Reply
send_request_vote network = send_rpc network (codes "__RAFT_VOTE__ ") (codes "__VOTE__")

unfoldable pub send_append_entries : Network → Bytes → ℕ → Bytes → Option Reply
send_append_entries network = send_rpc network (codes "__RAFT_APPEND__ ") (codes "__APPENDED__")

-- The first locked region of an election. The term is a `long` in the source: past 2 ^ 63 - 1 its
-- increment is undefined.
unfoldable pub begin_election : Moment → RaftNode → RaftNode
begin_election m n = reset_election_deadline_locked m (record n {
  role = candidate;
  current_term = n.current_term + 1;
  voted_for = n.config.self_id;
  leader_id = [];
})

-- How an election stands: these votes so far, given up, or won.
pub data Poll : Type 0 where
  polling : ℕ → Poll
  stopped won : Poll

unfoldable pub become_leader : RaftNode → RaftNode
become_leader n = record n { role = leader; leader_id = n.config.self_id; last_heartbeat_sent = 0 }

-- The locked region behind the reply of one peer.
unfoldable pub count_vote : ℕ → ℕ → Reply → Moment → RaftNode → RaftNode × Poll
count_vote term votes r m n =
    if not (n.current_term == term && role_is_candidate n.role)
    then (n, stopped)
    else if newer r.term n.current_term
    then (become_follower_locked r.term m n, stopped)
    else if r.flag
    then (if leb (majority n) (votes + 1) then (become_leader n, won) else (n, polling (votes + 1)))
    else (n, polling votes)

-- The region behind the reply of one peer to a heartbeat; `false` ends the round.
unfoldable pub count_beat : ℕ → Reply → Moment → RaftNode → RaftNode × Bool
count_beat term r m n =
    if not (role_is_leader n.role && n.current_term == term)
    then (n, false)
    else if newer r.term n.current_term
    then (become_follower_locked r.term m n, false)
    else (n, true)

-- What a wake-up of the timer thread finds to do.
pub data Tick : Type 0 where
  rest_tick heartbeat_tick election_tick : Tick

unfoldable pub tick : Moment → RaftNode → RaftNode × Tick
tick m n =
    if role_is_leader n.role
    then (if leb (n.last_heartbeat_sent + n.config.heartbeat_ms) m.now
        then (record n { last_heartbeat_sent = m.now }, heartbeat_tick)
        else (n, rest_tick))
    else (n, if leb n.election_deadline m.now then election_tick else rest_tick)

-- A locked region of a node: a handler, or one of its timer thread.
pub data Event : Type 0 where
  vote_event append_event : ℤ → Bytes → Moment → Event
  begin_event tick_event : Moment → Event
  count_event : ℕ → ℕ → Reply → Moment → Event
  beat_event : ℕ → Reply → Moment → Event

unfoldable pub run_event : Event → RaftNode → RaftNode
run_event (vote_event term from m) n = (request_vote term from m n).0
run_event (append_event term from m) n = (append_entries term from m n).0
run_event (begin_event m) n = begin_election m n
run_event (tick_event m) n = (tick m n).0
run_event (count_event term votes r m) n = (count_vote term votes r m n).0
run_event (beat_event term r m) n = (count_beat term r m n).0

unfoldable pub run_events : List Event → RaftNode → RaftNode
unfolding run_event
run_events [] n = n
run_events (e ∷ es) n = run_events es (run_event e n)

-- While one RPC of a loop is out: the regions that other threads run, and the reply.
pub record Exchange : Type 0 where
  pub others : List Event
  pub reply : Option Reply
  pub moment : Moment

unfoldable pub poll_peer : ℕ → ℕ → Exchange → RaftNode → RaftNode × Poll
poll_peer term votes x n = elim x.reply [
  | none ↦ (run_events x.others n, polling votes)
  | some r ↦ count_vote term votes r x.moment (run_events x.others n)
]

-- The loop over the peers.
unfoldable pub election_loop : (Bytes → Exchange) → ℕ → ℕ → List Bytes → RaftNode → RaftNode × Poll
election_loop exchange term votes [] n = (n, polling votes)
election_loop exchange term votes (peer ∷ peers) n =
    let (n', poll) = poll_peer term votes (exchange peer) n in
    elim poll [
      | polling votes' ↦ election_loop exchange term votes' peers n'
      | stopped ↦ (n', stopped)
      | won ↦ (n', won)
    ]

-- An election: its own vote, then a poll of the peers that the node had at its start.
unfoldable pub start_election : (Bytes → Exchange) → Moment → RaftNode → RaftNode × Poll
start_election exchange m n =
    let n' = begin_election m n in election_loop exchange n'.current_term 1 n'.config.peers n'

unfoldable pub beat_peer : ℕ → Exchange → RaftNode → RaftNode × Bool
beat_peer term x n = elim x.reply [
  | none ↦ (run_events x.others n, true)
  | some r ↦ count_beat term r x.moment (run_events x.others n)
]

unfoldable pub heartbeat_loop : (Bytes → Exchange) → ℕ → List Bytes → RaftNode → RaftNode
heartbeat_loop exchange term [] n = n
heartbeat_loop exchange term (peer ∷ peers) n =
    let (n', go) = beat_peer term (exchange peer) n in
    let rest = heartbeat_loop exchange term peers n' in if go then rest else n'

unfoldable pub send_heartbeats : (Bytes → Exchange) → Moment → RaftNode → RaftNode
send_heartbeats exchange m n =
    if not (role_is_leader n.role)
    then n
    else heartbeat_loop exchange n.current_term n.config.peers
        (record n { last_heartbeat_sent = m.now })
