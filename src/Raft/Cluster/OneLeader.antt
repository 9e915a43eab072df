-- ===== src/Raft/Cluster/OneLeader.antt =====
-- The leaders of a cluster of the nodes of src/raft.cpp.
use mathlib.Core.Path.{subst}
use mathlib.Core.Bool.{false≢true}
use redon.Prelude.{
  ◌+◌, ◌≡◌, refl, ap, sym, ◌∙◌, true, false, Bytes, List, [], ◌∷◌, arith, bytes_eq, bytes_eq_iff,
  length, All, Bool-cases, inl, inr,
}
use redon.Raft.{
  Config, Role, leader, follower, Moment, contains, filter_peers, new_node, role_is_leader,
}
use redon.Raft.Distinct.{all_distinct, filter_peers-distinct}
use redon.Raft.Majority.{Within, shared_member}
use redon.Raft.Cluster.{Cluster, ClusterSteps, first, next, new_cluster}
use redon.Raft.Cluster.Safe.{IsSafe}
use redon.Raft.Cluster.Kept.{IsSafe-Step}

-- The peers that a node of the configuration keeps.
abbrev pub kept_peers : (Bytes → Config) → Bytes → List Bytes
kept_peers config p = filter_peers p [] (config p).peers

kept_peers-distinct :
    (config : Bytes → Config) (p : Bytes)
    → (all_distinct (kept_peers config p) ≡ true) × (contains p (kept_peers config p) ≡ false)
unfolding all_distinct contains
kept_peers-distinct config p = filter_peers-distinct p [] (config p).peers refl refl

follower-ne-leader : (r : Role) → r ≡ follower → r ≡ leader → false ≡ true
follower-ne-leader r e l = ap role_is_leader (sym e ∙ l)

new_cluster-IsSafe :
    (config : Bytes → Config) (m : Bytes → Moment)
    → IsSafe (kept_peers config) (new_cluster config m)
unfolding new_cluster new_node
new_cluster-IsSafe config m = record {
  self = λ p. refl;
  others = λ p. refl;
  bounded = λ p q t e. absurd (false≢true e);
  current = λ p q t e n. absurd (false≢true e);
  named = λ p q t e. absurd (false≢true e);
  unique = λ p q q' t e e'. absurd (false≢true e);
  polls = λ p b e. absurd (ground arith);
  leads = λ p e. absurd (false≢true (ap role_is_leader e));
}

ClusterSteps-IsSafe :
    (config : Bytes → Config) (c d : Cluster)
    → ClusterSteps c d
    → IsSafe (kept_peers config) c
    → IsSafe (kept_peers config) d
ClusterSteps-IsSafe config _ _ (first c) h = h
ClusterSteps-IsSafe config _ _ (next {c} {d} {e} steps step) h =
    IsSafe-Step (kept_peers config) (λ p. (kept_peers-distinct config p).0)
      (λ p. (kept_peers-distinct config p).1) d e step (ClusterSteps-IsSafe config c d steps h)

All-contains {ℓ} :
    (P : Bytes → Type ℓ) (x : Bytes) (l : List Bytes) → All P l → contains x l ≡ true → P x
unfolding contains
All-contains P x [] h e = absurd (ground arith)
All-contains P x (y ∷ l) h e = elim (Bool-cases (bytes_eq y x)) [
  | inl b ↦ subst P ((bytes_eq_iff y x).0 b) h.0
  | inr b ↦ All-contains P x l h.1 (ground (arith, e, b))
]

Within-through : (a b m : List Bytes) → Within a b → Within b m → Within a m
Within-through [] b m f g = tt
Within-through (x ∷ a) b m f g =
    (All-contains (λ y. contains y m ≡ true) x b g f.0, Within-through a b m f.1 g)

-- A configuration in which the node counts the members and knows no others.
pub record Counts (config : Bytes → Config) (members : List Bytes) (p : Bytes) : Type 0 where
  pub known : Within (p ∷ kept_peers config p) members
  pub all : length members ≡ length (kept_peers config p) + 1

-- In a cluster that starts afresh, after any number of steps in any order (vote requests and heartbeats
-- from anyone, elections, replies counted or lost), two nodes that lead in the same term are the same
-- node, where each of the two has the members for its peers and itself. A reply that a candidate counts
-- as a grant is one that the peer has given; a candidate has a name, and no node restarts.
pub one_leader_per_term :
    (config : Bytes → Config) (m : Bytes → Moment) (members : List Bytes) (p q : Bytes)
    (c : Cluster)
    → ClusterSteps (new_cluster config m) c
    → Counts config members p
    → Counts config members q
    → (c.node p).role ≡ leader
    → (c.node q).role ≡ leader
    → (c.node p).current_term ≡ (c.node q).current_term
    → p ≡ q
one_leader_per_term config m members p q c steps cp cq lp lq same =
    let safe =
      ClusterSteps-IsSafe config (new_cluster config m) c steps (new_cluster-IsSafe config m) in
    let a = safe.leads p lp in
    let b = safe.leads q lq in
    let (x, in_a, in_b) =
      shared_member a.voters b.voters members a.distinct b.distinct
        (Within-through a.voters (p ∷ kept_peers config p) members a.known cp.known)
        (Within-through b.voters (q ∷ kept_peers config q) members b.known cq.known)
        (omega (arith, a.enough, b.enough, cp.all, cq.all)) in
    safe.unique x p q (c.node p).current_term
      (All-contains (λ y. c.given y p (c.node p).current_term ≡ true) x a.voters a.given in_a)
      (subst (λ t. c.given x q t ≡ true) (sym same)
        (All-contains (λ y. c.given y q (c.node q).current_term ≡ true) x b.voters b.given in_b))
