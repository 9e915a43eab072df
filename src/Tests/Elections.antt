-- ===== src/Tests/Elections.antt =====
-- The leader election of src/raft.cpp at concrete inputs.
use redon.Prelude.{
  ◌≡◌, refl, true, false, Bytes, List, [], ◌∷◌, none, some, codes, cons-ne-nil, bytes_eq,
}
use redon.Text.Integer.{pos}
use redon.Raft.{
  RaftNode, Config, Moment, contains, filter_peers, new_node, newer, same_term, term_of, majority,
  request_vote, grant_vote, become_follower_locked, append_entries, adopt_term,
  reset_election_deadline_locked,
}
use redon.Raft.Election.{
  Event, vote_event, append_event, run_events, Exchange, won, begin_election, become_leader,
  count_vote, poll_peer, election_loop, start_election,
}
use redon.Raft.Votes.{one_vote_per_term, unnamed_vote}
use redon.Raft.Quorum.{Elected, start_election-Elected}

abbrev pub moment : Moment
moment = record { now = 1000; timeout = 500 }

-- A node with itself and a duplicate among its peers.
abbrev config : Config
config = record {
  self_id = codes "a:1";
  peers = codes "b:1" ∷ codes "a:1" ∷ codes "c:1" ∷ codes "b:1" ∷ [];
  heartbeat_ms = 100;
}

abbrev pub node : RaftNode
node = new_node config moment

-- Between two requests of the same candidate, a vote for another and a heartbeat of an older leader.
abbrev between : List Event
between = vote_event (pos 3) (codes "c:1") moment ∷ append_event (pos 2) (codes "c:1") moment ∷ []

voted :
    ((request_vote (pos 3) (codes "b:1") moment node).1 ≡ true)
    × ((request_vote
          (pos 3)
          (codes "b:1")
          moment
          (run_events between (request_vote (pos 3) (codes "b:1") moment node).0)).1
        ≡ true)
unfolding request_vote grant_vote new_node newer same_term term_of become_follower_locked
    reset_election_deadline_locked run_events append_entries adopt_term bytes_eq
voted = (refl, refl)

one_vote_per_term_example : codes "b:1" ≡ codes "b:1"
one_vote_per_term_example =
    one_vote_per_term (pos 3) (codes "b:1") (codes "b:1") moment moment between node
      (cons-ne-nil _ _) voted.0 voted.1

voted_unnamed : (request_vote (pos 3) [] moment node).1 ≡ true
unfolding request_vote grant_vote new_node newer same_term term_of become_follower_locked
    reset_election_deadline_locked
voted_unnamed = refl

unnamed_vote_example :
    (request_vote (pos 3) (codes "b:1") moment (request_vote (pos 3) [] moment node).0).1 ≡ true
unnamed_vote_example = unnamed_vote (pos 3) (codes "b:1") moment moment node voted_unnamed

-- The first peer does not answer, the second grants its vote.
abbrev exchange : Bytes → Exchange
exchange peer = record {
  others = [];
  reply = elim (bytes_eq peer (codes "b:1")) [
    | true ↦ none
    | false ↦ some (record { term = pos 4; flag = true })
  ];
  moment = moment;
}

elected : (start_election exchange moment (run_events between node)).1 ≡ won
unfolding start_election begin_election election_loop poll_peer count_vote become_leader majority
    newer new_node filter_peers contains bytes_eq run_events reset_election_deadline_locked
    request_vote grant_vote same_term term_of become_follower_locked append_entries adopt_term
elected = refl

start_election-Elected_example :
    Elected exchange moment
      (run_events between node)
      (start_election exchange moment (run_events between node))
start_election-Elected_example =
    start_election-Elected exchange config moment between moment elected
