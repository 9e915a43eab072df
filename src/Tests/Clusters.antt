-- ===== src/Tests/Clusters.antt =====
-- An election of src/raft.cpp in a cluster of three nodes.
use redon.Prelude.{◌≡◌, refl, true, Bytes, List, [], ◌∷◌, codes, bytes_eq}
use redon.Text.Integer.{pos}
use redon.Raft.{
  Config, Reply, leader, contains, filter_peers, new_node, newer, same_term, term_of, majority,
  request_vote, grant_vote, become_follower_locked, reset_election_deadline_locked,
}
use redon.Raft.Election.{begin_election, become_leader, count_vote}
use redon.Raft.Cluster.{
  Ballot, Cluster, ClusterSteps, first, next, new_cluster, after_begin, after_request, after_count,
  begin_step, request_step, count_step,
}
use redon.Raft.Cluster.OneLeader.{Counts, one_leader_per_term}
use redon.Tests.Elections.{moment}

abbrev a : Bytes
a = codes "a"

abbrev b : Bytes
b = codes "b"

abbrev members : List Bytes
members = a ∷ b ∷ codes "c" ∷ []

-- Every node has the whole cluster in its configuration, itself included.
abbrev config : Bytes → Config
config p = record { self_id = p; peers = members; heartbeat_ms = 100 }

abbrev start : Cluster
start = new_cluster config (λ p. moment)

abbrev begun : Cluster
begun = after_begin a moment start

abbrev asked : Cluster
asked = after_request b (pos 1) a moment begun

abbrev ballot : Ballot
ballot = record { term = 1; waiting = b ∷ codes "c" ∷ []; voters = a ∷ [] }

abbrev grant : Reply
grant = record { term = pos 1; flag = true }

abbrev counted : Cluster
counted = after_count a b (codes "c" ∷ []) ballot grant moment asked

steps : ClusterSteps start counted
unfolding new_cluster after_begin after_request after_count new_node filter_peers contains
    begin_election reset_election_deadline_locked request_vote grant_vote newer same_term term_of
    become_follower_locked bytes_eq
steps =
    let one = next (first start) (begin_step a moment start refl) in
    let two = next one (request_step b (pos 1) a moment begun) in
    next two (count_step a b (codes "c" ∷ []) ballot grant moment asked refl refl (λ _. refl))

counts : Counts config members a
unfolding filter_peers contains bytes_eq
counts = record { known = (refl, (refl, (refl, tt))); all = refl }

leads : (counted.node a).role ≡ leader
unfolding new_cluster after_begin after_request after_count new_node filter_peers contains
    begin_election reset_election_deadline_locked request_vote grant_vote newer same_term term_of
    become_follower_locked bytes_eq count_vote become_leader majority
leads = refl

one_leader_per_term_example : a ≡ a
one_leader_per_term_example =
    one_leader_per_term config (λ p. moment) members a a counted steps counts counts leads leads
      refl
