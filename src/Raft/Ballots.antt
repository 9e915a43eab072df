-- ===== src/Raft/Ballots.antt =====
-- The replies that the election of src/raft.cpp counts.
use redon.Prelude.{
  ℕ, ◌+◌, ◌/◌, ◌≤◌, ◌==◌, ◌≡◌, ◌⊎◌, inl, inr, refl, ap, ◌∙◌, Bytes, List, [], ◌∷◌, Option, none,
  some, if◌then◌else◌, arith, Option-cases, length,
}
use redon.Raft.{
  leader, RaftNode, Moment, Reply, majority, become_follower_locked, reset_election_deadline_locked,
}
use redon.Raft.Election.{
  become_leader, count_vote, run_events, Exchange, Poll, polling, stopped, won, poll_peer,
}
use redon.Raft.Distinct.{run_events-config}

-- Whether a peer answered that it grants its vote.
abbrev pub granted : Option Reply → ℕ
granted none = 0
granted (some r) = if r.flag then 1 else 0

-- The peers of a list that granted theirs.
unfoldable pub voters : (Bytes → Exchange) → List Bytes → List Bytes
voters exchange [] = []
voters exchange (p ∷ ps) =
    if granted (exchange p).reply == 1 then p ∷ voters exchange ps else voters exchange ps

granted-≤ : (x : Option Reply) → granted x ≤ 1
granted-≤ none = omega arith
granted-≤ (some r) = ground arith

pub length-voters :
    (exchange : Bytes → Exchange) (p : Bytes) (ps : List Bytes)
    → length (voters exchange (p ∷ ps)) ≡ granted (exchange p).reply + length (voters exchange ps)
unfolding voters
length-voters exchange p ps = ground (arith, granted-≤ (exchange p).reply)

count_vote-votes :
    (term votes : ℕ) (r : Reply) (m : Moment) (n : RaftNode) (v : ℕ)
    → (count_vote term votes r m n).1 ≡ polling v
    → v ≡ votes + granted (some r)
unfolding count_vote
count_vote-votes term votes r m n v h = ground arith

pub count_vote-won :
    (term votes : ℕ) (r : Reply) (m : Moment) (n : RaftNode)
    → (count_vote term votes r m n).1 ≡ won
    → (majority n ≤ votes + granted (some r))
      × ((count_vote term votes r m n).0.current_term ≡ term)
      × ((count_vote term votes r m n).0.role ≡ leader)
unfolding count_vote become_leader
count_vote-won term votes r m n h = ground arith

pub count_vote-config :
    (term votes : ℕ) (r : Reply) (m : Moment) (n : RaftNode)
    → (count_vote term votes r m n).0.config ≡ n.config
unfolding count_vote become_leader become_follower_locked reset_election_deadline_locked
count_vote-config term votes r m n = ground arith

-- After one peer, the votes have grown by its own at most.
pub poll_peer-votes :
    (term votes : ℕ) (x : Exchange) (n : RaftNode) (v : ℕ)
    → (poll_peer term votes x n).1 ≡ polling v
    → v ≡ votes + granted x.reply
unfolding poll_peer
poll_peer-votes term votes x n v = elim (Option-cases x.reply) [
  | inl e ↦ rw (e, poll_peer) (λ h. ground arith)
  | inr (r, e) ↦
      rw (e, poll_peer) (count_vote-votes term votes r x.moment (run_events x.others n) v)
]

pub poll_peer-config :
    (term votes : ℕ) (x : Exchange) (n : RaftNode) → (poll_peer term votes x n).0.config ≡ n.config
unfolding poll_peer
poll_peer-config term votes x n = elim (Option-cases x.reply) [
  | inl e ↦ rw (e, poll_peer) (run_events-config x.others n)
  | inr (r, e) ↦
      rw (e, poll_peer)
        (count_vote-config term votes r x.moment (run_events x.others n)
          ∙ run_events-config x.others n)
]

pub poll_peer-won :
    (term votes : ℕ) (x : Exchange) (n : RaftNode)
    → (poll_peer term votes x n).1 ≡ won
    → (majority n ≤ votes + granted x.reply)
      × ((poll_peer term votes x n).0.current_term ≡ term)
      × ((poll_peer term votes x n).0.role ≡ leader)
unfolding poll_peer majority
poll_peer-won term votes x n = elim (Option-cases x.reply) [
  | inl e ↦ rw (e, poll_peer) (λ h. absurd (ground arith))
  | inr (r, e) ↦
      rw (e, poll_peer)
        (λ h.
          let w = count_vote-won term votes r x.moment (run_events x.others n) h in
          let same = ap (λ c. (length c.peers + 1) / 2 + 1) (run_events-config x.others n) in
          (omega (arith, w.0, same), w.1, w.2))
]

pub Poll-cases : (q : Poll) → ((v : ℕ) × (q ≡ polling v)) ⊎ ((q ≡ stopped) ⊎ (q ≡ won))
Poll-cases (polling v) = inl (v, refl)
Poll-cases stopped = inr (inl refl)
Poll-cases won = inr (inr refl)
