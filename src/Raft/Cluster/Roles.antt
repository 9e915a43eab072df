-- ===== src/Raft/Cluster/Roles.antt =====
-- What the handlers and the elections of src/raft.cpp do to the role of a node.
use mathlib.Core.Bool.{false≢true}
use redon.Prelude.{ℕ, ◌≡◌, ◌≢◌, ap, Bool, true, false, Bytes, arith}
use redon.Text.Integer.{ℤ}
use redon.Raft.{
  RaftNode, Role, leader, Moment, Reply, become_follower_locked, reset_election_deadline_locked,
  grant_vote, request_vote, append_entries, adopt_term, role_is_leader,
}
use redon.Raft.Election.{become_leader, count_vote, count_beat, tick, Poll, polling, stopped, won}

pub vote_role :
    (term : ℤ) (from : Bytes) (m : Moment) (n : RaftNode)
    → (request_vote term from m n).0.role ≡ leader
    → (n.role ≡ leader) × ((request_vote term from m n).0.current_term ≡ n.current_term)
unfolding request_vote grant_vote become_follower_locked reset_election_deadline_locked
vote_role term from m n h = ground arith

pub append_role :
    (term : ℤ) (from : Bytes) (m : Moment) (n : RaftNode)
    → (append_entries term from m n).0.role ≡ leader
    → (n.role ≡ leader) × ((append_entries term from m n).0.current_term ≡ n.current_term)
unfolding append_entries adopt_term reset_election_deadline_locked
append_role term from m n h = ground arith

pub tick_role :
    (m : Moment) (n : RaftNode)
    → (tick m n).0.role ≡ leader
    → (n.role ≡ leader) × ((tick m n).0.current_term ≡ n.current_term)
unfolding tick
tick_role m n h = ground arith

pub beat_role :
    (term : ℕ) (r : Reply) (m : Moment) (n : RaftNode)
    → (count_beat term r m n).0.role ≡ leader
    → (n.role ≡ leader) × ((count_beat term r m n).0.current_term ≡ n.current_term)
unfolding count_beat become_follower_locked reset_election_deadline_locked
beat_role term r m n h = ground arith

-- Short of a win, an election leaves its node a follower or as it was.
pub count_role :
    (term votes : ℕ) (r : Reply) (m : Moment) (n : RaftNode)
    → (count_vote term votes r m n).1 ≢ won
    → (count_vote term votes r m n).0.role ≡ leader
    → (n.role ≡ leader) × ((count_vote term votes r m n).0.current_term ≡ n.current_term)
unfolding count_vote become_leader become_follower_locked reset_election_deadline_locked
count_role term votes r m n lost h = ground arith

pub count_flag :
    (term votes : ℕ) (r : Reply) (m : Moment) (n : RaftNode)
    → (count_vote term votes r m n).1 ≡ won
    → r.flag ≡ true
unfolding count_vote
count_flag term votes r m n h = ground arith

pub candidate-ne-leader : Role.candidate ≢ leader
candidate-ne-leader e = absurd (false≢true (ap role_is_leader e))

is_won : Poll → Bool
is_won won = true
is_won _ = false

pub polling-ne-won : (v : ℕ) → polling v ≢ won
unfolding is_won
polling-ne-won v e = false≢true (ap is_won e)

pub stopped-ne-won : stopped ≢ won
unfolding is_won
stopped-ne-won e = false≢true (ap is_won e)
