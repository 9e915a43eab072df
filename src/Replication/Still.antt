-- ===== src/Replication/Still.antt =====
-- A link of src/replication.cpp that has nothing to send: what its sender and its follower go on doing.
use mathlib.Core.Path.{subst}
use mathlib.Core.Option.{some-injective}
use redon.Prelude.{
  ℕ, ◌≡◌, refl, ap, sym, ◌∙◌, Bool, true, false, ◌||◌, Bytes, List, [], ◌∷◌, ◌++◌, none, some,
  arith, All, All-append,
}
use redon.Storage
use redon.Storage.{Storage, get, get_memory}
use redon.Raft.{Moment}
use redon.Replication.{Link, take_line}
use redon.Replication.Lines.{ping_line, ping_text, follow, follow-ping}
use redon.Replication.Sender.{
  Phase, sending, Sync, link_of, change_link, turn_phase, turn_lines, after_turn, SyncStep,
  set_step, get_step, del_step, stop_step, check_step, greet_step, cut_step, snapshot_step,
  turn_step, cleanup_step, deliver_step, lost_greet_step, late_step, reset_step, SyncRun, here,
  then_step,
}
use redon.Replication.Onward.{IsOnward, OnlyOnward, Onward}
use redon.Replication.Agree.{sent_text_of}
use redon.Replication.Agree.Turn.{take_ping}
use redon.Replication.CatchUp.{link_of-change_link}

-- What stays of the state `u` of an idle link: only pings are sent.
pub record Still (i : ℕ) (link : Link) (u s : Sync) : Type 0 where
  pub past : s.phase ≡ sending []
  pub at : link_of i s.leader ≡ some link
  pub pings : All (λ l. l ≡ ping_line) s.wire
  pub stale : s.stale ≡ u.stale
  pub leader : (k : Bytes) → (Storage.get k s.leader).1 ≡ (Storage.get k u.leader).1
  pub follower : s.follower ≡ u.follower

get-change_link :
    (i : ℕ) (f : Link → Link) (s : Storage) (k : Bytes)
    → (get k (change_link i f s)).1 ≡ (get k s).1
unfolding get get_memory change_link
get-change_link i f s k = ground arith

rest_off : Phase → Bool
rest_off (sending (x ∷ xs)) = true
rest_off _ = false

module _ (i : ℕ) (link : Link) (u : Sync) (going : (link.stop || link.resync_needed) ≡ false)
    (empty : link.queue ≡ []) (alone : u.follower.raft ≡ none) where
  turn-Still :
      (l : Link) (s : Sync)
      → link_of i s.leader ≡ some l
      → Still i link u s
      → Still i link u (after_turn i l s)
  unfolding after_turn
  turn-Still l s at h =
      let same : link ≡ l = some-injective link l (sym h.at ∙ at) in
      let took = take_ping link going empty in
      subst (λ x. Still i link u (after_turn i x s)) same
        (record {
          past = ap (λ r. turn_phase r.1) took;
          at =
              link_of-change_link i (λ x. (take_line x).0) s.leader link h.at
              ∙ ap (λ r. some r.0) took;
          pings =
              All-append (λ x. x ≡ ping_line) s.wire (turn_lines (take_line link).1) h.pings
                (rw took (refl, tt));
          stale = h.stale;
          leader = λ k. get-change_link i (λ x. (take_line x).0) s.leader k ∙ h.leader k;
          follower = h.follower;
        })

  deliver-Still :
      (m : Moment) (line : Bytes) (rest : List Bytes) (s : Sync)
      → s.wire ≡ (line ++ b'\n' ∷ []) ∷ rest
      → Still i link u s
      → Still i link u (record s { wire = rest; follower = follow m line s.follower })
  deliver-Still m line rest s e h =
      let (first, others) = subst (All (λ x. x ≡ ping_line)) e h.pings in
      let text : line ≡ ping_text = sent_text_of none line first in
      record {
        past = h.past;
        at = h.at;
        pings = others;
        stale = h.stale;
        leader = h.leader;
        follower =
            ap (λ x. follow m x s.follower) text
            ∙ follow-ping m s.follower (ap (λ w. w.raft) h.follower ∙ alone)
            ∙ h.follower;
      }

  Still-Step :
      {s t : Sync} (step : SyncStep i s t) → IsOnward step → Still i link u s → Still i link u t
  unfolding rest_off
  Still-Step (snapshot_step key value rest s e) on h =
      absurd (ground (arith, ap rest_off (sym e ∙ h.past)))
  Still-Step (turn_step l s e at) on h = turn-Still l s at h
  Still-Step (deliver_step m line rest s e) on h = deliver-Still m line rest s e h
  Still-Step (set_step key value s hk hv) on h = absurd on
  Still-Step (get_step key s) on h = absurd on
  Still-Step (del_step key s hk) on h = absurd on
  Still-Step (stop_step s) on h = absurd on
  Still-Step (check_step l s e at) on h = absurd on
  Still-Step (greet_step m s e ok) on h = absurd on
  Still-Step (cut_step opened contents s e) on h = absurd on
  Still-Step (cleanup_step l s e at) on h = absurd on
  Still-Step (lost_greet_step m s) on h = absurd on
  Still-Step (late_step m line rest s e) on h = absurd on
  Still-Step (reset_step s) on h = absurd on

  Still-SyncRun :
      {s t : Sync} (run : SyncRun i s t) → OnlyOnward run → Still i link u s → Still i link u t
  Still-SyncRun (here s) on h = h
  Still-SyncRun (then_step run step) on h = Still-Step step on.1 (Still-SyncRun run on.0 h)

  pub Still-Onward : {s t : Sync} → Onward i s t → Still i link u s → Still i link u t
  Still-Onward o h = Still-SyncRun o.run o.only h
