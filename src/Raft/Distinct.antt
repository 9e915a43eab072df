-- ===== src/Raft/Distinct.antt =====
-- The configuration of a node of src/raft.cpp: no event changes it, and its peers are distinct.
use redon.Prelude.{
  ◌≡◌, inl, inr, refl, ap, ◌∙◌, Bool, true, false, not, ◌&&◌, ◌||◌, Bytes, List, [], ◌∷◌, ◌++◌,
  bytes_eq, bytes_eq_iff, arith, Bool-cases,
}
use redon.Raft.{
  Config, RaftNode, Moment, contains, filter_peers, new_node, become_follower_locked,
  reset_election_deadline_locked, grant_vote, request_vote, append_entries, adopt_term,
}
use redon.Raft.Election.{
  begin_election, become_leader, count_vote, count_beat, tick, Event, vote_event, append_event,
  begin_event, tick_event, count_event, beat_event, run_event, run_events,
}

pub config_kept : (e : Event) (n : RaftNode) → (run_event e n).config ≡ n.config
unfolding run_event request_vote grant_vote become_follower_locked reset_election_deadline_locked
    append_entries adopt_term begin_election tick count_vote become_leader count_beat
config_kept (vote_event term from m) n = ground arith
config_kept (append_event term from m) n = ground arith
config_kept (begin_event m) n = ground arith
config_kept (tick_event m) n = ground arith
config_kept (count_event term votes r m) n = ground arith
config_kept (beat_event term r m) n = ground arith

pub run_events-config : (es : List Event) (n : RaftNode) → (run_events es n).config ≡ n.config
unfolding run_events
run_events-config [] n = refl
run_events-config (e ∷ es) n = run_events-config es (run_event e n) ∙ config_kept e n

-- No name stands twice in a list.
unfoldable pub all_distinct : List Bytes → Bool
all_distinct [] = true
all_distinct (p ∷ ps) = not (contains p ps) && all_distinct ps

pub contains-append :
    (p : Bytes) (l l' : List Bytes) → contains p (l ++ l') ≡ (contains p l || contains p l')
unfolding contains
contains-append p [] l' = refl
contains-append p (q ∷ l) l' = ground (arith, contains-append p l l')

distinct-append :
    (p : Bytes) (l : List Bytes)
    → all_distinct l ≡ true
    → contains p l ≡ false
    → all_distinct (l ++ p ∷ []) ≡ true
unfolding all_distinct contains
distinct-append p [] h e = refl
distinct-append p (q ∷ l) h e =
    ground
      (arith, distinct-append p l, contains-append q l (p ∷ []), bytes_eq_iff p q, bytes_eq_iff q p)

pub filter_peers-distinct :
    (self : Bytes) (kept ps : List Bytes)
    → all_distinct kept ≡ true
    → contains self kept ≡ false
    → (all_distinct (filter_peers self kept ps) ≡ true)
      × (contains self (filter_peers self kept ps) ≡ false)
unfolding filter_peers contains
filter_peers-distinct self kept [] h e = (h, e)
filter_peers-distinct self kept (p ∷ ps) h e =
    elim (Bool-cases (not (bytes_eq p self) && not (contains p kept))) [
      | inl b ↦ rw b (
          filter_peers-distinct self (kept ++ p ∷ []) ps (distinct-append p kept h (ground arith))
            (contains-append self kept (p ∷ []) ∙ ground (arith, bytes_eq_iff p self)))
      | inr b ↦ rw b (filter_peers-distinct self kept ps h e)
    ]

-- The peers that a node keeps of its configuration are distinct and not the node itself.
pub new_node-distinct :
    (config : Config) (m : Moment)
    → (all_distinct (new_node config m).config.peers ≡ true)
      × (contains config.self_id (new_node config m).config.peers ≡ false)
unfolding new_node all_distinct contains
new_node-distinct config m = filter_peers-distinct config.self_id [] config.peers refl refl

new_node_self : (config : Config) (m : Moment) → (new_node config m).config.self_id ≡ config.self_id
unfolding new_node
new_node_self config m = refl

-- No event changes the configuration.
pub reached-distinct :
    (config : Config) (m : Moment) (es : List Event)
    → (all_distinct (run_events es (new_node config m)).config.peers ≡ true)
      × (contains
            (run_events es (new_node config m)).config.self_id
            (run_events es (new_node config m)).config.peers
          ≡ false)
reached-distinct config m es =
    let same = run_events-config es (new_node config m) in
    let (apart, other) = new_node-distinct config m in
    (
      ap (λ c. all_distinct c.peers) same ∙ apart,
      ap (λ c. contains c.self_id c.peers) same
          ∙ ap (λ p. contains p (new_node config m).config.peers) (new_node_self config m)
          ∙ other,
    )

pub distinct-front :
    (front back : List Bytes) → all_distinct (front ++ back) ≡ true → all_distinct front ≡ true
unfolding all_distinct
distinct-front [] back h = refl
distinct-front (p ∷ front) back h =
    ground (arith, distinct-front front back, contains-append p front back)
