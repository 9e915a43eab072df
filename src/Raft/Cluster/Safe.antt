-- ===== src/Raft/Cluster/Safe.antt =====
-- The invariant of a cluster of the nodes of src/raft.cpp, and the changes which its steps are made of.
use mathlib.Core.Path.{subst}
use redon.Prelude.{
  ℕ, ◌+◌, ◌/◌, ◌≤◌, ◌≡◌, ◌≢◌, ap, sym, ◌∙◌, Bool, true, false, Bytes, List, [], ◌∷◌, arith, Option,
  some, bytes_eq, bytes_eq_iff, length, All, Bool-cases, inl, inr, is_empty, cons-ne-nil,
}
use redon.Raft.{RaftNode, leader, contains}
use redon.Raft.Votes.{Later}
use redon.Raft.Distinct.{all_distinct}
use redon.Raft.Majority.{Within}
use redon.Raft.Cluster.{Ballot, Cluster, put, give, after_local}

module _ (peers : Bytes → List Bytes) where
  -- The votes of an election were given, by distinct nodes, and those still to be asked are others.
  pub record IsBallot (g : Bytes → Bytes → ℕ → Bool) (p : Bytes) (b : Ballot) : Type 0 where
    pub given : All (λ q. g q p b.term ≡ true) b.voters
    pub distinct : all_distinct b.voters ≡ true
    pub to_ask : all_distinct b.waiting ≡ true
    pub apart : All (λ q. contains q b.voters ≡ false) b.waiting
    pub voters_known : Within b.voters (p ∷ peers p)
    pub waiting_known : Within b.waiting (p ∷ peers p)

  -- A majority of votes in the term of a node.
  pub record HasQuorum (g : Bytes → Bytes → ℕ → Bool) (p : Bytes) (term : ℕ) : Type 0 where
    pub voters : List Bytes
    pub given : All (λ q. g q p term ≡ true) voters
    pub distinct : all_distinct voters ≡ true
    pub known : Within voters (p ∷ peers p)
    pub enough : (length (peers p) + 1) / 2 + 1 ≤ length voters

  pub record IsSafe (c : Cluster) : Type 0 where
    pub self : (p : Bytes) → (c.node p).config.self_id ≡ p
    pub others : (p : Bytes) → (c.node p).config.peers ≡ peers p
    pub bounded : (p q : Bytes) (t : ℕ) → c.given p q t ≡ true → t ≤ (c.node p).current_term
    pub current :
        (p q : Bytes) (t : ℕ)
        → c.given p q t ≡ true
        → t ≡ (c.node p).current_term
        → (c.node p).voted_for ≡ q
    pub named : (p q : Bytes) (t : ℕ) → c.given p q t ≡ true → is_empty q ≡ false
    pub unique : (p q q' : Bytes) (t : ℕ) → c.given p q t ≡ true → c.given p q' t ≡ true → q ≡ q'
    pub polls : (p : Bytes) (b : Ballot) → c.ballot p ≡ some b → IsBallot c.given p b
    pub leads : (p : Bytes) → (c.node p).role ≡ leader → HasQuorum c.given p (c.node p).current_term

  -- What a node may do by itself.
  pub record Alike (n n' : RaftNode) : Type 0 where
    pub later : Later n n'
    pub config : n'.config ≡ n.config
    pub role : n'.role ≡ leader → (n.role ≡ leader) × (n'.current_term ≡ n.current_term)

  named-ne-nil : (q : Bytes) → is_empty q ≡ false → q ≢ []
  named-ne-nil [] e z = absurd (ground arith)
  named-ne-nil (c ∷ q) e z = cons-ne-nil c q z

  current-Later :
      (n n' : RaftNode) (q : Bytes) (t : ℕ)
      → Later n n'
      → t ≤ n.current_term
      → (t ≡ n.current_term → n.voted_for ≡ q)
      → is_empty q ≡ false
      → t ≡ n'.current_term
      → n'.voted_for ≡ q
  current-Later n n' q t l le mine name now =
      let same : n.current_term ≡ n'.current_term = omega (arith, l.term) in
      let voted : n.voted_for ≡ q = mine (now ∙ sym same) in
      l.vote same (λ z. named-ne-nil q name (sym voted ∙ z)) ∙ voted

  -- A node changes, and where it leads it has a quorum.
  pub node-IsSafe :
      (p : Bytes) (n : RaftNode) (c : Cluster)
      → IsSafe c
      → Later (c.node p) n
      → n.config ≡ (c.node p).config
      → (n.role ≡ leader → HasQuorum c.given p n.current_term)
      → IsSafe (after_local p n c)
  unfolding after_local
  node-IsSafe p n c h l same quorum = record {
    self = λ x. ground (arith, bytes_eq_iff p x, h.self x, ap (λ k. k.self_id) same);
    others = λ x. ground (arith, bytes_eq_iff p x, h.others x, ap (λ k. k.peers) same);
    bounded = λ x q t e. ground (arith, bytes_eq_iff p x, h.bounded x q t e, l.term);
    current = λ x q t e. elim (Bool-cases (bytes_eq p x)) [
      | inl b ↦
          let e' : c.given p q t ≡ true =
            subst (λ z. c.given z q t ≡ true) (sym ((bytes_eq_iff p x).0 b)) e in
          rw b (
            current-Later (c.node p) n q t l (h.bounded p q t e') (h.current p q t e')
              (h.named p q t e'))
      | inr b ↦ rw b (h.current x q t e)
    ];
    named = h.named;
    unique = h.unique;
    polls = h.polls;
    leads = λ x. elim (Bool-cases (bytes_eq p x)) [
      | inl b ↦ rw b (λ lead.
          subst (λ z. HasQuorum c.given z n.current_term) ((bytes_eq_iff p x).0 b) (quorum lead))
      | inr b ↦ rw b (h.leads x)
    ];
  }

  pub local-IsSafe :
      (p : Bytes) (n : RaftNode) (c : Cluster)
      → IsSafe c
      → Alike (c.node p) n
      → IsSafe (after_local p n c)
  local-IsSafe p n c h a = node-IsSafe p n c h a.later a.config (λ lead.
      let (was, same) = a.role lead in subst (HasQuorum c.given p) (sym same) (h.leads p was))

  given-give :
      (p q : Bytes) (t : ℕ) (g : Bytes → Bytes → ℕ → Bool) (x : Bytes) (t' : ℕ) (l : List Bytes)
      → All (λ r. g r x t' ≡ true) l
      → All (λ r. give p q t g r x t' ≡ true) l
  given-give p q t g x t' [] h = tt
  given-give p q t g x t' (r ∷ l) h = (ground (arith, h.0), given-give p q t g x t' l h.1)

  give-IsBallot :
      (p q : Bytes) (t : ℕ) (g : Bytes → Bytes → ℕ → Bool) (x : Bytes) (b : Ballot)
      → IsBallot g x b
      → IsBallot (give p q t g) x b
  give-IsBallot p q t g x b h = record {
    given = given-give p q t g x b.term b.voters h.given;
    distinct = h.distinct;
    to_ask = h.to_ask;
    apart = h.apart;
    voters_known = h.voters_known;
    waiting_known = h.waiting_known;
  }

  give-HasQuorum :
      (p q : Bytes) (t : ℕ) (g : Bytes → Bytes → ℕ → Bool) (x : Bytes) (term : ℕ)
      → HasQuorum g x term
      → HasQuorum (give p q t g) x term
  give-HasQuorum p q t g x term h = record {
    voters = h.voters;
    given = given-give p q t g x term h.voters h.given;
    distinct = h.distinct;
    known = h.known;
    enough = h.enough;
  }

  pub give-IsSafe :
      (p q : Bytes) (t : ℕ) (c : Cluster)
      → IsSafe c
      → t ≡ (c.node p).current_term
      → (c.node p).voted_for ≡ q
      → is_empty q ≡ false
      → IsSafe (record c { given = give p q t c.given })
  give-IsSafe p q t c h now mine name = record {
    self = h.self;
    others = h.others;
    bounded = λ x q' t' e. ground (arith, h.bounded x q' t', bytes_eq_iff p x, e);
    current =
        λ x q' t' e. ground (arith, h.current x q' t', bytes_eq_iff p x, bytes_eq_iff q q', e);
    named = λ x q' t' e. ground (arith, h.named x q' t', bytes_eq_iff q q', e);
    unique = λ x q1 q2 t' e1 e2. ground (
      arith,
      h.unique x q1 q2 t',
      h.current x q1 t',
      h.current x q2 t',
      bytes_eq_iff p x,
      bytes_eq_iff q q1,
      bytes_eq_iff q q2,
      e1,
      e2,
    );
    polls = λ x b e. give-IsBallot p q t c.given x b (h.polls x b e);
    leads = λ x l. give-HasQuorum p q t c.given x (c.node x).current_term (h.leads x l);
  }

  pub ballot-IsSafe :
      (p : Bytes) (o : Option Ballot) (c : Cluster)
      → IsSafe c
      → ((b : Ballot) → o ≡ some b → IsBallot c.given p b)
      → IsSafe (record c { ballot = put p o c.ballot })
  ballot-IsSafe p o c h good = record {
    self = h.self;
    others = h.others;
    bounded = h.bounded;
    current = h.current;
    named = h.named;
    unique = h.unique;
    polls = λ x b. elim (Bool-cases (bytes_eq p x)) [
      | inl e ↦ rw e (λ z. subst (λ y. IsBallot c.given y b) ((bytes_eq_iff p x).0 e) (good b z))
      | inr e ↦ rw e (h.polls x b)
    ];
    leads = h.leads;
  }
