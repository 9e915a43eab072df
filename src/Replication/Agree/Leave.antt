-- ===== src/Replication/Agree/Leave.antt =====
-- The end of a connection in `sender_loop` of src/replication.cpp.
use mathlib.Core.Path.{subst}
use mathlib.Core.Bool.{false≢true}
use mathlib.Core.List.{map}
use redon.Prelude.{
  ℕ, ◌≡◌, refl, ap, sym, ◌∙◌, Bool, true, false, Bytes, List, [], ◌++◌, Option, some, All,
  All-append, if◌then◌else◌, ◌⊎◌, inl, inr,
}
use redon.Replication.{Link, cleanup}
use redon.Replication.Lines.{IsClean}
use redon.Replication.Queue.{Pending, Follows-change_link}
use redon.Replication.Sender.{Phase, idle, ended, Sync, link_of, change_link, after_cleanup}
use redon.Replication.Agree.{
  Sent, sent_line, IsCleanSent, IsLine, rest_of, is_sending, Live, ahead, IsSynced, All-IsLine,
}
use redon.Storage.Valid.{SameCache-IsValid}
use redon.Replication.Agree.Handshake.{is_greeted}
use redon.Replication.Agree.Leader.{SameCache-change_link, disk-change_link, relinked-IsSendable}

queue-cleanup : (l : Link) → (cleanup l).0.queue ≡ []
unfolding cleanup
queue-cleanup l = refl

module _ (i : ℕ) (s : Sync) (h : IsSynced i s) where
  -- The link leaves the connection: nothing is claimed of the follower any more.
  pub left :
      (f : Link → Link) (phase : Phase) (sent : List Sent) (stale : List Bytes)
      → ((link : Link)
          → link_of i s.leader ≡ some link
          → ((f link).queue ≡ link.queue) ⊎ ((f link).queue ≡ []))
      → is_sending phase ≡ false
      → is_greeted phase ≡ false
      → All IsClean (rest_of phase)
      → All IsCleanSent sent
      → All IsLine stale
      → IsSynced i (record s {
        leader = change_link i f s.leader;
        phase = phase;
        wire = map sent_line sent;
        stale = stale;
      })
  left f phase sent stale queue off other rest clean lines =
      let t = change_link i f s.leader in
      record {
        valid = SameCache-IsValid s.leader t (SameCache-change_link i f s.leader) h.valid;
        memory = disk-change_link i f s.leader ∙ h.memory;
        sendable = relinked-IsSendable i s h t (SameCache-change_link i f s.leader);
        replica = h.replica;
        sent = sent;
        sent_lines = refl;
        sent_clean = clean;
        rest_clean = rest;
        stale_lines = lines;
        follows =
            Follows-change_link i f (ahead h.sent s.phase s.follower) (ahead sent phase s.follower)
              (Live s) ((s.late ≡ 0) × (is_sending phase ≡ true)) s.leader
              (λ link at p. left-Pending (ahead sent phase s.follower) link (queue link at) p)
              h.follows;
        cleared = λ g. absurd (false≢true (sym other ∙ ap is_greeted g));
      }
    where
      left-Pending :
          (held' : Bytes → Option Bytes) (link : Link)
          → ((f link).queue ≡ link.queue) ⊎ ((f link).queue ≡ [])
          → Pending (ahead h.sent s.phase s.follower) (Live s) link s.leader
          → Pending held' ((s.late ≡ 0) × (is_sending phase ≡ true)) (f link) s.leader
      left-Pending held' link (inl same) p = record {
        records = p.records;
        lines = same ∙ p.lines;
        clean = p.clean;
        agree = λ l. absurd (false≢true (sym off ∙ l.1));
      }
      left-Pending held' link (inr none_left) p = record {
        records = [];
        lines = none_left;
        clean = tt;
        agree = λ l. absurd (false≢true (sym off ∙ l.1));
      }

  pub cleaned : (link : Link) → IsSynced i (after_cleanup i link s)
  unfolding after_cleanup
  cleaned link = cleaned_to (cleanup link).1
    where
      lines : All IsLine (s.stale ++ s.wire)
      lines =
          All-append IsLine s.stale s.wire h.stale_lines
            (subst (All IsLine) (sym h.sent_lines) (All-IsLine h.sent h.sent_clean))

      cleaned_to :
          (b : Bool)
          → IsSynced i (record s {
            leader = change_link i (λ l. (cleanup l).0) s.leader;
            phase = if b then ended else idle;
            wire = [];
            stale = s.stale ++ s.wire;
          })
      cleaned_to true =
          left (λ l. (cleanup l).0) ended [] _ (λ l _. inr (queue-cleanup l)) refl refl tt tt lines
      cleaned_to false =
          left (λ l. (cleanup l).0) idle [] _ (λ l _. inr (queue-cleanup l)) refl refl tt tt lines
