-- ===== src/Raft.antt =====
-- src/raft.h and src/raft.cpp: leader election. A node's state is explicit; each region that holds the
-- mutex is one function. The sockets, the clock and the random generator are parameters.
pub mod Votes
pub mod Election
pub mod Ballots
pub mod Distinct
pub mod Quorum
pub mod Majority
pub mod Cluster
pub mod Replies
use redon.Prelude.{
  ℕ, zero, suc, ◌+◌, ◌/◌, Bool, true, false, not, ◌&&◌, ◌||◌, Bytes, List, [], ◌∷◌, ◌++◌, Option,
  none, some, codes, bytes_eq, ltb, leb, ◌==◌, if◌then◌else◌, is_empty, length,
}
use redon.Text.Integer.{ℤ, pos, negsuc, stol}
use redon.Text.Decimal.{to_string}
use redon.Text.Address.{split_host_port, tokens}

pub data Role : Type 0 where
  follower candidate leader : Role

pub record Config : Type 0 where
  pub self_id : Bytes
  pub peers : List Bytes
  pub heartbeat_ms : ℕ

-- The times are milliseconds of the steady clock.
pub record RaftNode : Type 0 where
  pub config : Config
  pub role : Role
  pub current_term : ℕ
  pub voted_for : Bytes
  pub leader_id : Bytes
  pub election_deadline : ℕ
  pub last_heartbeat_sent : ℕ

-- What the clock answers, and the timeout that the generator draws, in one locked region.
pub record Moment : Type 0 where
  pub now : ℕ
  pub timeout : ℕ

-- The answer of a peer to an RPC: its term, and whether it granted or accepted.
pub record Reply : Type 0 where
  pub term : ℤ
  pub flag : Bool

unfoldable pub contains : Bytes → List Bytes → Bool
contains p [] = false
contains p (q ∷ qs) = bytes_eq q p || contains p qs

-- The peers without this node and without duplicates, `kept` so far.
unfoldable pub filter_peers : Bytes → List Bytes → List Bytes → List Bytes
filter_peers self kept [] = kept
filter_peers self kept (p ∷ ps) =
    filter_peers self
      (if not (bytes_eq p self) && not (contains p kept) then kept ++ p ∷ [] else kept) ps

unfoldable pub new_node : Config → Moment → RaftNode
new_node config m = record {
  config = record config { peers = filter_peers config.self_id [] config.peers };
  role = follower;
  current_term = 0;
  voted_for = [];
  leader_id = [];
  election_deadline = m.now + m.timeout;
  last_heartbeat_sent = m.now;
}

unfoldable pub majority : RaftNode → ℕ
majority n = (length n.config.peers + 1) / 2 + 1

-- `term > current` and `term >= current`, of a signed term.
unfoldable pub newer : ℤ → ℕ → Bool
newer (pos t) current = ltb current t
newer (negsuc t) current = false

unfoldable pub same_term : ℤ → ℕ → Bool
same_term (pos t) current = t == current
same_term (negsuc t) current = false

-- The term that a node takes over, which is newer than its own.
unfoldable pub term_of : ℤ → ℕ
term_of (pos t) = t
term_of (negsuc t) = 0

unfoldable pub reset_election_deadline_locked : Moment → RaftNode → RaftNode
reset_election_deadline_locked m n = record n { election_deadline = m.now + m.timeout }

unfoldable pub become_follower_locked : ℤ → Moment → RaftNode → RaftNode
become_follower_locked term m n =
    reset_election_deadline_locked m
      (record n { role = follower; current_term = term_of term; voted_for = []; leader_id = [] })

abbrev pub flag_text : Bool → Bytes
flag_text b = if b then codes "1" else codes "0"

unfoldable pub grant_vote : ℤ → Bytes → Moment → RaftNode → RaftNode × Bool
grant_vote term candidate_id m n =
    if same_term term n.current_term && (is_empty n.voted_for || bytes_eq n.voted_for candidate_id)
    then (reset_election_deadline_locked m (record n { voted_for = candidate_id }), true)
    else (n, false)

-- A newer term makes the node step down first, then the vote is decided.
unfoldable pub request_vote : ℤ → Bytes → Moment → RaftNode → RaftNode × Bool
request_vote term candidate_id m n =
    grant_vote term candidate_id m
      (if newer term n.current_term then become_follower_locked term m n else n)

unfoldable pub handle_request_vote : ℤ → Bytes → Moment → RaftNode → RaftNode × Bytes
handle_request_vote term candidate_id m n =
    let (n', granted) = request_vote term candidate_id m n in
    (n', codes "__VOTE__ " ++ (to_string n'.current_term ++ b' ' ∷ flag_text granted))

unfoldable pub adopt_term : ℤ → RaftNode → RaftNode
adopt_term term n =
    if newer term n.current_term
    then record n { current_term = term_of term; voted_for = [] }
    else n

unfoldable pub append_entries : ℤ → Bytes → Moment → RaftNode → RaftNode × Bool
append_entries term from m n =
    if newer term n.current_term || same_term term n.current_term
    then (
      reset_election_deadline_locked m
          (record (adopt_term term n) { role = follower; leader_id = from }),
      true,
    )
    else (n, false)

unfoldable pub handle_append_entries : ℤ → Bytes → Moment → RaftNode → RaftNode × Bytes
handle_append_entries term from m n =
    let (n', success) = append_entries term from m n in
    (n', codes "__APPENDED__ " ++ (to_string n'.current_term ++ b' ' ∷ flag_text success))

abbrev pub role_is_leader : Role → Bool
role_is_leader leader = true
role_is_leader _ = false

abbrev pub role_is_candidate : Role → Bool
role_is_candidate candidate = true
role_is_candidate _ = false

unfoldable pub is_leader : RaftNode → Bool
is_leader n = role_is_leader n.role

abbrev role_text : Role → Bytes
role_text leader = codes "leader"
role_text candidate = codes "candidate"
role_text follower = codes "follower"

unfoldable pub status_line : RaftNode → Bytes
status_line n =
    codes "role="
    ++ role_text n.role
    ++ codes " term="
    ++ to_string n.current_term
    ++ codes " leader="
    ++ (if is_empty n.leader_id then codes "(none)" else n.leader_id)
