-- ===== src/Raft/Votes.antt =====
-- The votes of a node of src/raft.cpp, over its handlers and its own elections.
use redon.Prelude.{
  ℕ, ◌≤◌, ◌≡◌, ◌≢◌, refl, ap, sym, ◌∙◌, true, Bytes, List, [], ◌∷◌, bytes_eq_iff, is_empty_nil,
  arith,
}
use redon.Text.Integer.{ℤ, pos, negsuc}
use redon.Raft.{
  RaftNode, Moment, Reply, newer, same_term, term_of, become_follower_locked,
  reset_election_deadline_locked, grant_vote, request_vote, append_entries, adopt_term,
}
use redon.Raft.Election.{
  begin_election, become_leader, count_vote, count_beat, tick, Event, vote_event, append_event,
  begin_event, tick_event, count_event, beat_event, run_event, run_events,
}

-- A later state of a node: its term has not fallen, and within the term a vote once given stays.
pub record Later (n n' : RaftNode) : Type 0 where
  pub term : n.current_term ≤ n'.current_term
  pub vote : n.current_term ≡ n'.current_term → n.voted_for ≢ [] → n'.voted_for ≡ n.voted_for

request_vote-Later :
    (term : ℤ) (from : Bytes) (m : Moment) (n : RaftNode) → Later n (request_vote term from m n).0
unfolding request_vote grant_vote become_follower_locked reset_election_deadline_locked newer
    same_term term_of
request_vote-Later (pos t) from m n =
    ground (arith, is_empty_nil n.voted_for, bytes_eq_iff n.voted_for from)
request_vote-Later (negsuc t) from m n = ground arith

append_entries-Later :
    (term : ℤ) (from : Bytes) (m : Moment) (n : RaftNode) → Later n (append_entries term from m n).0
unfolding append_entries adopt_term reset_election_deadline_locked newer same_term term_of
append_entries-Later (pos t) from m n = ground arith
append_entries-Later (negsuc t) from m n = ground arith

become_follower-Later :
    (term : ℤ) (m : Moment) (n : RaftNode)
    → newer term n.current_term ≡ true
    → Later n (become_follower_locked term m n)
unfolding become_follower_locked reset_election_deadline_locked newer term_of
become_follower-Later (pos t) m n h = ground arith
become_follower-Later (negsuc t) m n h = ground arith

pub count_vote-Later :
    (term votes : ℕ) (r : Reply) (m : Moment) (n : RaftNode)
    → Later n (count_vote term votes r m n).0
unfolding count_vote become_leader
count_vote-Later term votes r m n = ground (arith, become_follower-Later r.term m n)

count_beat-Later :
    (term : ℕ) (r : Reply) (m : Moment) (n : RaftNode) → Later n (count_beat term r m n).0
unfolding count_beat
count_beat-Later term r m n = ground (arith, become_follower-Later r.term m n)

pub run_event-Later : (e : Event) (n : RaftNode) → Later n (run_event e n)
unfolding run_event begin_election tick reset_election_deadline_locked
run_event-Later (vote_event term from m) n = request_vote-Later term from m n
run_event-Later (append_event term from m) n = append_entries-Later term from m n
run_event-Later (begin_event m) n = ground arith
run_event-Later (tick_event m) n = ground arith
run_event-Later (count_event term votes r m) n = count_vote-Later term votes r m n
run_event-Later (beat_event term r m) n = count_beat-Later term r m n

run_events-Later : (es : List Event) (n : RaftNode) → Later n (run_events es n)
unfolding run_events
run_events-Later [] n = record { term = omega arith; vote = λ e h. refl }
run_events-Later (e ∷ es) n =
    let one = run_event-Later e n in
    let rest = run_events-Later es (run_event e n) in
    ground (arith, one.term, rest.term, one.vote, rest.vote)

-- A granted vote: the node stands in the term of the request, and its vote is the candidate's.
pub granted_state :
    (term : ℤ) (from : Bytes) (m : Moment) (n : RaftNode)
    → (request_vote term from m n).1 ≡ true
    → (term ≡ pos (request_vote term from m n).0.current_term)
      × ((request_vote term from m n).0.voted_for ≡ from)
unfolding request_vote grant_vote become_follower_locked reset_election_deadline_locked newer
    same_term term_of
granted_state (pos t) from m n h =
    ground (arith, is_empty_nil n.voted_for, bytes_eq_iff n.voted_for from)
granted_state (negsuc t) from m n h = absurd (ground arith)

-- What a vote needs: the node is not past the term, and its vote in the term is free or the candidate's.
granted_before :
    (term : ℤ) (from : Bytes) (m : Moment) (n : RaftNode)
    → (request_vote term from m n).1 ≡ true
    → term ≡ pos n.current_term
    → n.voted_for ≢ []
    → n.voted_for ≡ from
unfolding request_vote grant_vote become_follower_locked reset_election_deadline_locked newer
    same_term term_of
granted_before (pos t) from m n h e free =
    ground (arith, is_empty_nil n.voted_for, bytes_eq_iff n.voted_for from)
granted_before (negsuc t) from m n h e free = absurd (ground arith)

granted_upto :
    (t : ℕ) (term : ℤ) (from : Bytes) (m : Moment) (n : RaftNode)
    → term ≡ pos t
    → (request_vote term from m n).1 ≡ true
    → n.current_term ≤ t
unfolding request_vote grant_vote become_follower_locked reset_election_deadline_locked newer
    same_term term_of
granted_upto t (pos t') from m n e h = ground arith
granted_upto t (negsuc t') from m n e h = absurd (ground arith)

-- Two candidates to which a node grants its vote in the same term are the same candidate, whatever the
-- node does between the two requests, if the first has a name: elections of its own, heartbeats,
-- votes for others.
pub one_vote_per_term :
    (term : ℤ) (first second : Bytes) (m m' : Moment) (es : List Event) (n : RaftNode)
    → first ≢ []
    → (request_vote term first m n).1 ≡ true
    → (request_vote term second m' (run_events es (request_vote term first m n).0)).1 ≡ true
    → second ≡ first
one_vote_per_term term first second m m' es n named one two =
    let after = (request_vote term first m n).0 in
    let (at, mine) = granted_state term first m n one in
    let later = run_events-Later es after in
    let end = run_events es after in
    let upto = granted_upto after.current_term term second m' end at two in
    let same : after.current_term ≡ end.current_term = omega (arith, later.term, upto) in
    let kept : end.voted_for ≡ first = later.vote same (rw mine named) ∙ mine in
    sym (granted_before term second m' end two (at ∙ ap pos same) (rw kept named)) ∙ kept

-- A candidate without a name does not use the vote up.
pub unnamed_vote :
    (term : ℤ) (second : Bytes) (m m' : Moment) (n : RaftNode)
    → (request_vote term [] m n).1 ≡ true
    → (request_vote term second m' (request_vote term [] m n).0).1 ≡ true
unfolding request_vote grant_vote become_follower_locked reset_election_deadline_locked newer
    same_term term_of
unnamed_vote (pos t) second m m' n h = ground arith
unnamed_vote (negsuc t) second m m' n h = absurd (ground arith)
