-- ===== src/Raft/Quorum.antt =====
-- The votes behind a won election of src/raft.cpp.
use redon.Prelude.{
  ℕ, ◌+◌, ◌/◌, ◌≤◌, ◌<◌, ◌*◌, sym, ◌≡◌, inl, inr, refl, ap, ◌∙◌, true, false, Bytes, List, [], ◌∷◌,
  ◌++◌, arith, length,
}
use redon.Raft.{
  leader, Config, RaftNode, Moment, contains, new_node, majority, reset_election_deadline_locked,
}
use redon.Raft.Election.{
  begin_election, Event, run_events, Exchange, Poll, won, poll_peer, election_loop, start_election,
}
use redon.Raft.Distinct.{all_distinct, contains-append, distinct-front, reached-distinct}
use redon.Raft.Ballots.{
  voters, length-voters, poll_peer-votes, poll_peer-config, poll_peer-won, Poll-cases,
}

-- What a won loop shows: the peers up to the one whose vote decides it are asked, and no other.
record Decided (exchange : Bytes → Exchange) (n : RaftNode) (term votes : ℕ) (ps : List Bytes)
    (r : RaftNode × Poll) : Type 0 where
  asked : List Bytes
  rest : List Bytes
  in_order : ps ≡ asked ++ rest
  only_asked : election_loop exchange term votes asked n ≡ r
  quorum : majority n ≤ votes + length (voters exchange asked)
  term_kept : r.0.current_term ≡ term
  leads : r.0.role ≡ leader

election_loop-Decided :
    (exchange : Bytes → Exchange) (term votes : ℕ) (ps : List Bytes) (n : RaftNode)
    → (election_loop exchange term votes ps n).1 ≡ won
    → Decided exchange n term votes ps (election_loop exchange term votes ps n)
unfolding election_loop majority
election_loop-Decided exchange term votes [] n = λ h. absurd (ground arith)
election_loop-Decided exchange term votes (p ∷ ps) n =
    let n' = (poll_peer term votes (exchange p) n).0 in
    let same =
      ap (λ c. (length c.peers + 1) / 2 + 1) (poll_peer-config term votes (exchange p) n) in
    elim (Poll-cases (poll_peer term votes (exchange p) n).1) [
      | inl (v, e) ↦
          rw (e, election_loop)
            (λ h.
              let w = election_loop-Decided exchange term v ps n' h in
              record {
                asked = p ∷ w.asked;
                rest = w.rest;
                in_order = ap (λ l. p ∷ l) w.in_order;
                only_asked = rw (e, election_loop) w.only_asked;
                quorum = omega (
                  arith,
                  w.quorum,
                  same,
                  poll_peer-votes term votes (exchange p) n v e,
                  length-voters exchange p w.asked,
                );
                term_kept = w.term_kept;
                leads = w.leads;
              })
      | inr (inl e) ↦ rw (e, election_loop) (λ h. absurd (ground arith))
      | inr (inr e) ↦
          rw (e, election_loop)
            (λ h.
              let (quorum, term_kept, leads) = poll_peer-won term votes (exchange p) n e in
              record {
                asked = p ∷ [];
                rest = ps;
                in_order = refl;
                only_asked = rw (e, election_loop) refl;
                quorum = omega (arith, quorum, length-voters exchange p []);
                term_kept = term_kept;
                leads = leads;
              })
    ]

contains-voters :
    (exchange : Bytes → Exchange) (q : Bytes) (ps : List Bytes)
    → contains q ps ≡ false
    → contains q (voters exchange ps) ≡ false
unfolding voters contains
contains-voters exchange q [] h = refl
contains-voters exchange q (p ∷ ps) h = ground (arith, contains-voters exchange q ps)

voters-distinct :
    (exchange : Bytes → Exchange) (ps : List Bytes)
    → all_distinct ps ≡ true
    → all_distinct (voters exchange ps) ≡ true
unfolding voters all_distinct
voters-distinct exchange [] h = refl
voters-distinct exchange (p ∷ ps) h =
    ground (arith, voters-distinct exchange ps, contains-voters exchange p ps)

-- What a won election shows. `asked` are the peers that were asked for their vote.
pub record Elected (exchange : Bytes → Exchange) (m : Moment) (n : RaftNode) (r : RaftNode × Poll)
    : Type 0 where
  pub asked : List Bytes
  pub rest : List Bytes
  pub in_order : n.config.peers ≡ asked ++ rest
  pub only_asked : election_loop exchange (n.current_term + 1) 1 asked (begin_election m n) ≡ r
  pub distinct : all_distinct (n.config.self_id ∷ voters exchange asked) ≡ true
  pub most : length n.config.peers + 1 < 2 * (1 + length (voters exchange asked))
  pub term_kept : r.0.current_term ≡ n.current_term + 1
  pub leads : r.0.role ≡ leader

-- A node that was set up from any configuration and has run any events since, and that wins an election,
-- leads in the term that it began. The peers asked are the front of its list, and with only these the
-- election ends the same. The node and those of them that granted their vote are distinct names, and more
-- than half of the cluster, which is the node and its peers.
pub start_election-Elected :
    (exchange : Bytes → Exchange) (config : Config) (m0 : Moment) (es : List Event) (m : Moment)
    → (start_election exchange m (run_events es (new_node config m0))).1 ≡ won
    → Elected exchange m
        (run_events es (new_node config m0))
        (start_election exchange m (run_events es (new_node config m0)))
unfolding start_election begin_election majority reset_election_deadline_locked all_distinct
start_election-Elected exchange config m0 es m h =
    let n = run_events es (new_node config m0) in
    let w =
      election_loop-Decided exchange (n.current_term + 1) 1 n.config.peers (begin_election m n) h in
    let (apart, other) = reached-distinct config m0 es in
    let peers : all_distinct (w.asked ++ w.rest) ≡ true =
      sym (ap all_distinct w.in_order) ∙ apart in
    let self : contains n.config.self_id w.asked ≡ false = ground (
      arith,
      ap (contains n.config.self_id) w.in_order,
      other,
      contains-append n.config.self_id w.asked w.rest,
    ) in
    record {
      asked = w.asked;
      rest = w.rest;
      in_order = w.in_order;
      only_asked = w.only_asked;
      distinct = ground (
        arith,
        voters-distinct exchange w.asked (distinct-front w.asked w.rest peers),
        contains-voters exchange n.config.self_id w.asked self,
      );
      most = omega (arith, w.quorum);
      term_kept = w.term_kept;
      leads = w.leads;
    }
