-- ===== src/Raft/Cluster/Kept.antt =====
-- The steps of a cluster of the nodes of src/raft.cpp and its invariant.
use mathlib.Core.Path.{subst}
use mathlib.Core.Bool.{false≢true}
use mathlib.Core.Option.{some-injective}
use redon.Prelude.{
  ℕ, ◌≡◌, ◌≢◌, refl, ap, sym, ◌∙◌, Bool, true, false, not, ◌&&◌, Bytes, List, [], ◌∷◌, arith,
  if◌then◌else◌, some, bytes_eq_refl, length, All, Bool-cases, inl, inr, is_empty,
}
use redon.Text.Integer.{ℤ}
use redon.Raft.{
  Moment, Reply, contains, majority, term_of, reset_election_deadline_locked, request_vote,
  append_entries,
}
use redon.Raft.Election.{
  begin_election, count_vote, count_beat, tick, Poll, polling, stopped, won, vote_event,
  append_event, begin_event, tick_event, count_event, beat_event, run_event,
}
use redon.Raft.Votes.{run_event-Later, granted_state}
use redon.Raft.Distinct.{all_distinct, config_kept}
use redon.Raft.Ballots.{count_vote-won, Poll-cases}
use redon.Raft.Majority.{Within}
use redon.Raft.Cluster.{
  Ballot, Cluster, put, give, next_ballot, after_local, after_request, after_begin, after_count,
  ClusterStep, request_step, append_step, tick_step, beat_step, begin_step, count_step, silent_step,
}
use redon.Raft.Cluster.Safe.{
  IsBallot, HasQuorum, IsSafe, node-IsSafe, local-IsSafe, give-IsSafe, ballot-IsSafe,
}
use redon.Raft.Cluster.Roles.{
  vote_role, append_role, tick_role, beat_role, count_role, count_flag, candidate-ne-leader,
  polling-ne-won, stopped-ne-won,
}
use redon.Raft.Cluster.Apart.{Within-all, apart-cons, not_own}

module _ (peers : Bytes → List Bytes) (distinct : (p : Bytes) → all_distinct (peers p) ≡ true)
    (apart : (p : Bytes) → contains p (peers p) ≡ false) where
  request-IsSafe :
      (p : Bytes) (term : ℤ) (from : Bytes) (m : Moment) (c : Cluster)
      → IsSafe peers c
      → IsSafe peers (after_request p term from m c)
  unfolding after_request run_event after_local term_of
  request-IsSafe p term from m c h =
      let n = (request_vote term from m (c.node p)).0 in
      let e = vote_event term from m in
      let moved = local-IsSafe peers p n c h (record {
        later = run_event-Later e (c.node p);
        config = config_kept e (c.node p);
        role = vote_role term from m (c.node p);
      }) in
      elim (Bool-cases ((request_vote term from m (c.node p)).1 && not (is_empty from))) [
        | inl b ↦
            let (at, mine) = granted_state term from m (c.node p) (ground (arith, b)) in
            rw b (
              give-IsSafe peers p from (term_of term) (after_local p n c) moved
                (ap term_of at ∙ ground (arith, bytes_eq_refl p))
                (ground (arith, bytes_eq_refl p, mine)) (ground (arith, b)))
        | inr b ↦ rw b moved
      ]

  fresh :
      (p : Bytes) (waiting : List Bytes) (t : ℕ) (g : Bytes → Bytes → ℕ → Bool)
      → waiting ≡ peers p
      → IsBallot peers (give p p t g) p (record { term = t; waiting = waiting; voters = p ∷ [] })
  unfolding all_distinct contains
  fresh p waiting t g e = record {
    given = (ground (arith, bytes_eq_refl p), tt);
    distinct = refl;
    to_ask = ap all_distinct e ∙ distinct p;
    apart = not_own p waiting (ap (contains p) e ∙ apart p);
    voters_known = (ground (arith, bytes_eq_refl p), tt);
    waiting_known = Within-all waiting (p ∷ peers p) (λ q i. ground (arith, ap (contains q) e, i));
  }

  begin-IsSafe :
      (p : Bytes) (m : Moment) (c : Cluster)
      → is_empty p ≡ false
      → IsSafe peers c
      → IsSafe peers (after_begin p m c)
  unfolding after_begin run_event after_local begin_election reset_election_deadline_locked
  begin-IsSafe p m c name h =
      let n = begin_election m (c.node p) in
      let e = begin_event m in
      let moved = local-IsSafe peers p n c h (record {
        later = run_event-Later e (c.node p);
        config = config_kept e (c.node p);
        role = λ lead. absurd (candidate-ne-leader lead);
      }) in
      let noted =
        give-IsSafe peers p p n.current_term (after_local p n c) moved
          (ground (arith, bytes_eq_refl p)) (ground (arith, bytes_eq_refl p, h.self p)) name in
      let b0 : Ballot = record {
        term = n.current_term;
        waiting = n.config.peers;
        voters = p ∷ [];
      } in
      ballot-IsSafe peers p (some b0)
        (record (after_local p n c) { given = give p p n.current_term c.given }) noted
        (λ b z.
          subst (IsBallot peers (give p p n.current_term c.given) p) (some-injective b0 b z)
            (fresh p n.config.peers n.current_term c.given (h.others p)))

  extended :
      (g : Bytes → Bytes → ℕ → Bool) (p q : Bytes) (rest : List Bytes) (b : Ballot) (flag : Bool)
      → IsBallot peers g p b
      → b.waiting ≡ q ∷ rest
      → (flag ≡ true → g q p b.term ≡ true)
      → IsBallot peers g p
          (record b { waiting = rest; voters = if flag then q ∷ b.voters else b.voters })
  unfolding all_distinct
  extended g p q rest b flag h w honest =
      let to_ask : all_distinct (q ∷ rest) ≡ true = ap all_distinct (sym w) ∙ h.to_ask in
      let others = subst (All (λ x. contains x b.voters ≡ false)) w h.apart in
      let known = subst (λ l. Within l (p ∷ peers p)) w h.waiting_known in
      elim (Bool-cases flag) [
        | inl y ↦ rw y (record {
          given = (honest y, h.given);
          distinct = ground (arith, others.0, h.distinct);
          to_ask = ground (arith, to_ask);
          apart = apart-cons q b.voters rest (ground (arith, to_ask)) others.1;
          voters_known = (known.0, h.voters_known);
          waiting_known = known.1;
        })
        | inr y ↦ rw y (record {
          given = h.given;
          distinct = h.distinct;
          to_ask = ground (arith, to_ask);
          apart = others.1;
          voters_known = h.voters_known;
          waiting_known = known.1;
        })
      ]

  continued :
      (g : Bytes → Bytes → ℕ → Bool) (p q : Bytes) (rest : List Bytes) (b : Ballot) (flag : Bool)
      (poll : Poll) (b' : Ballot)
      → IsBallot peers g p
          (record b { waiting = rest; voters = if flag then q ∷ b.voters else b.voters })
      → next_ballot q flag rest b poll ≡ some b'
      → IsBallot peers g p b'
  continued g p q rest b flag (polling v) b' h z =
      subst (IsBallot peers g p) (some-injective _ b' z) h
  continued g p q rest b flag stopped b' h z = absurd (ground arith)
  continued g p q rest b flag won b' h z = absurd (ground arith)

  elected :
      (p q : Bytes) (rest : List Bytes) (b : Ballot) (r : Reply) (m : Moment) (c : Cluster)
      → b.waiting ≡ q ∷ rest
      → (r.flag ≡ true → c.given q p b.term ≡ true)
      → IsSafe peers c
      → IsBallot peers c.given p b
      → (count_vote b.term (length b.voters) r m (c.node p)).1 ≡ won
      → HasQuorum peers c.given p
          (count_vote b.term (length b.voters) r m (c.node p)).0.current_term
  unfolding all_distinct majority
  elected p q rest b r m c w honest h hb z =
      let flag = count_flag b.term (length b.voters) r m (c.node p) z in
      let (enough, term, lead) = count_vote-won b.term (length b.voters) r m (c.node p) z in
      let voted = extended c.given p q rest b true hb w (λ _. honest flag) in
      subst (HasQuorum peers c.given p) (sym term) (record {
        voters = q ∷ b.voters;
        given = voted.given;
        distinct = voted.distinct;
        known = voted.voters_known;
        enough = ground (arith, enough, flag, h.others p);
      })

  count-IsSafe :
      (p q : Bytes) (rest : List Bytes) (b : Ballot) (r : Reply) (m : Moment) (c : Cluster)
      → c.ballot p ≡ some b
      → b.waiting ≡ q ∷ rest
      → (r.flag ≡ true → c.given q p b.term ≡ true)
      → IsSafe peers c
      → IsSafe peers (after_count p q rest b r m c)
  unfolding after_count after_local run_event
  count-IsSafe p q rest b r m c e w honest h =
      let hb = h.polls p b e in
      let (n, poll) = count_vote b.term (length b.voters) r m (c.node p) in
      let event = count_event b.term (length b.voters) r m in
      let later = run_event-Later event (c.node p) in
      let same = config_kept event (c.node p) in
      let lost : poll ≢ won → IsSafe peers (after_local p n c) = λ l.
        local-IsSafe peers p n c h (record {
          later = later;
          config = same;
          role = count_role b.term (length b.voters) r m (c.node p) l;
        }) in
      let moved : IsSafe peers (after_local p n c) = elim (Poll-cases poll) [
        | inl (v, z) ↦ lost (λ y. polling-ne-won v (sym z ∙ y))
        | inr (inl z) ↦ lost (λ y. stopped-ne-won (sym z ∙ y))
        | inr (inr z) ↦
            node-IsSafe peers p n c h later same (λ _. elected p q rest b r m c w honest h hb z)
      ] in
      ballot-IsSafe peers p (next_ballot q r.flag rest b poll) (after_local p n c) moved (λ b' z.
        continued c.given p q rest b r.flag poll b' (extended c.given p q rest b r.flag hb w honest)
          z)

  silent-IsSafe :
      (p q : Bytes) (rest : List Bytes) (b : Ballot) (c : Cluster)
      → c.ballot p ≡ some b
      → b.waiting ≡ q ∷ rest
      → IsSafe peers c
      → IsSafe peers (record c { ballot = put p (some (record b { waiting = rest })) c.ballot })
  silent-IsSafe p q rest b c e w h =
      let left : Ballot = record b { waiting = rest } in
      let kept : IsBallot peers c.given p left =
        extended c.given p q rest b false (h.polls p b e) w (λ z. absurd (false≢true z)) in
      ballot-IsSafe peers p (some left) c h
        (λ b' z. subst (IsBallot peers c.given p) (some-injective left b' z) kept)

  pub IsSafe-Step : (c d : Cluster) → ClusterStep c d → IsSafe peers c → IsSafe peers d
  unfolding run_event
  IsSafe-Step _ _ (request_step p term from m c) h = request-IsSafe p term from m c h
  IsSafe-Step _ _ (append_step p term from m c) h =
      local-IsSafe peers p (append_entries term from m (c.node p)).0 c h (record {
        later = run_event-Later (append_event term from m) (c.node p);
        config = config_kept (append_event term from m) (c.node p);
        role = append_role term from m (c.node p);
      })
  IsSafe-Step _ _ (tick_step p m c) h = local-IsSafe peers p (tick m (c.node p)).0 c h (record {
    later = run_event-Later (tick_event m) (c.node p);
    config = config_kept (tick_event m) (c.node p);
    role = tick_role m (c.node p);
  })
  IsSafe-Step _ _ (beat_step p term r m c) h =
      local-IsSafe peers p (count_beat term r m (c.node p)).0 c h (record {
        later = run_event-Later (beat_event term r m) (c.node p);
        config = config_kept (beat_event term r m) (c.node p);
        role = beat_role term r m (c.node p);
      })
  IsSafe-Step _ _ (begin_step p m c name) h = begin-IsSafe p m c name h
  IsSafe-Step _ _ (count_step p q rest b r m c e w honest) h =
      count-IsSafe p q rest b r m c e w honest h
  IsSafe-Step _ _ (silent_step p q rest b c e w) h = silent-IsSafe p q rest b c e w h
