-- ===== src/Raft/Cluster.antt =====
-- A cluster of the nodes of src/raft.cpp: every handler, election and heartbeat as a step of one node,
-- in any order. Requests may come from anyone at any time; a candidate counts a grant only where the
-- peer has granted its vote, which is what the connection to the peer's address gives.
pub mod Safe
pub mod Roles
pub mod Apart
pub mod Kept
pub mod OneLeader
use redon.Prelude.{
  ℕ, zero, suc, ◌+◌, ◌≡◌, Bool, true, false, not, ◌&&◌, ◌||◌, ◌==◌, Bytes, List, [], ◌∷◌, Option,
  none, some, bytes_eq, if◌then◌else◌, is_empty, length,
}
use redon.Text.Integer.{ℤ}
use redon.Raft.{Config, RaftNode, Moment, Reply, new_node, term_of, request_vote, append_entries}
use redon.Raft.Election.{begin_election, Poll, polling, stopped, won, count_vote, count_beat, tick}

-- An election under way: its term, the peers it has still to ask, and the nodes whose votes it has.
pub record Ballot : Type 0 where
  pub term : ℕ
  pub waiting : List Bytes
  pub voters : List Bytes

-- The nodes by their ids, their elections, and the votes given so far: voter, candidate, term.
pub record Cluster : Type 0 where
  pub node : Bytes → RaftNode
  pub ballot : Bytes → Option Ballot
  pub given : Bytes → Bytes → ℕ → Bool

abbrev pub put {ℓ} : {A : Type ℓ} → Bytes → A → (Bytes → A) → Bytes → A
put k v f j = if bytes_eq k j then v else f j

abbrev pub give : Bytes → Bytes → ℕ → (Bytes → Bytes → ℕ → Bool) → Bytes → Bytes → ℕ → Bool
give p c t g p' c' t' = (bytes_eq p p' && (bytes_eq c c' && t == t')) || g p' c' t'

-- A cluster before anything has happened.
unfoldable pub new_cluster : (Bytes → Config) → (Bytes → Moment) → Cluster
new_cluster config m = record {
  node = λ p. new_node (record (config p) { self_id = p }) (m p);
  ballot = λ p. none;
  given = λ p c t. false;
}

-- A vote request reaches a node; a granted vote with a name on it is noted.
unfoldable pub after_request : Bytes → ℤ → Bytes → Moment → Cluster → Cluster
after_request p term from m c =
    let (n, granted) = request_vote term from m (c.node p) in
    record c {
      node = put p n c.node;
      given =
          if granted && not (is_empty from) then give p from (term_of term) c.given else c.given;
    }

-- An election begins with the node's own vote.
unfoldable pub after_begin : Bytes → Moment → Cluster → Cluster
after_begin p m c =
    let n = begin_election m (c.node p) in
    record c {
      node = put p n c.node;
      ballot =
          put p (some (record { term = n.current_term; waiting = n.config.peers; voters = p ∷ [] }))
            c.ballot;
      given = give p p n.current_term c.given;
    }

-- What is left of an election behind the reply of the peer `q`.
abbrev pub next_ballot : Bytes → Bool → List Bytes → Ballot → Poll → Option Ballot
next_ballot q flag rest b (polling votes) =
    some (record b { waiting = rest; voters = if flag then q ∷ b.voters else b.voters })
next_ballot q flag rest b stopped = none
next_ballot q flag rest b won = none

unfoldable pub after_count :
    Bytes → Bytes → List Bytes → Ballot → Reply → Moment → Cluster → Cluster
after_count p q rest b r m c =
    let (n, poll) = count_vote b.term (length b.voters) r m (c.node p) in
    record c { node = put p n c.node; ballot = put p (next_ballot q r.flag rest b poll) c.ballot }

unfoldable pub after_local : Bytes → RaftNode → Cluster → Cluster
after_local p n c = record c { node = put p n c.node }

pub data ClusterStep : Cluster → Cluster → Type 0 where
  request_step :
      (p : Bytes) (term : ℤ) (from : Bytes) (m : Moment) (c : Cluster)
      → ClusterStep c (after_request p term from m c)
  append_step :
      (p : Bytes) (term : ℤ) (from : Bytes) (m : Moment) (c : Cluster)
      → ClusterStep c (after_local p (append_entries term from m (c.node p)).0 c)
  tick_step :
      (p : Bytes) (m : Moment) (c : Cluster) → ClusterStep c (after_local p (tick m (c.node p)).0 c)
  beat_step :
      (p : Bytes) (term : ℕ) (r : Reply) (m : Moment) (c : Cluster)
      → ClusterStep c (after_local p (count_beat term r m (c.node p)).0 c)
  begin_step :
      (p : Bytes) (m : Moment) (c : Cluster)
      → is_empty p ≡ false
      → ClusterStep c (after_begin p m c)
  count_step :
      (p q : Bytes) (rest : List Bytes) (b : Ballot) (r : Reply) (m : Moment) (c : Cluster)
      → c.ballot p ≡ some b
      → b.waiting ≡ q ∷ rest
      → (r.flag ≡ true → c.given q p b.term ≡ true)
      → ClusterStep c (after_count p q rest b r m c)
  silent_step :
      (p q : Bytes) (rest : List Bytes) (b : Ballot) (c : Cluster)
      → c.ballot p ≡ some b
      → b.waiting ≡ q ∷ rest
      → ClusterStep c (record c { ballot = put p (some (record b { waiting = rest })) c.ballot })

pub data ClusterSteps : Cluster → Cluster → Type 0 where
  first : (c : Cluster) → ClusterSteps c c
  next : {c d e : Cluster} → ClusterSteps c d → ClusterStep d e → ClusterSteps c e
