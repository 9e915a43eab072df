-- ===== src/Replication/Agree/Handshake.antt =====
-- The handshake of `sender_loop` of src/replication.cpp, with the `replsync` of src/command.cpp.
use mathlib.Core.Bool.{false≢true}
use redon.Prelude.{
  ℕ, ◌≡◌, refl, ap, sym, ◌∙◌, Bool, true, false, Bytes, [], Option, none, some, arith, All,
  if◌then◌else◌, codes, bytes_eq,
}
use redon.Assoc.{find}
use redon.Replication.Lines.{IsClean, IsReplica, follow, held}
use redon.Replication.Queue.{Follows, Follows-claim}
use redon.Replication.Sender.{
  Phase, connecting, greeted, ended, Sync, replsync_text, fresh_link, after_greet,
}
use redon.Replication.Agree.{rest_of, is_sending, Live, ahead, IsSynced}
use redon.Raft.{Moment}
use redon.Text.{is_space, skip_space, span_token}
use redon.Text.Span.{span}
use redon.Command.{
  World, execute_line, execute_verb, replsync, to_upper, upper, trim, trim_end, next_token,
  skip_mark,
}
use redon.Storage
use redon.Storage.{Storage, get_memory, del_memory, log_del, replicate_del}
use redon.Storage.{Node}
use redon.Storage.Lru.{entries}
use redon.Storage.Keeps.{clear-IsValid}
use redon.Storage.Alone.{Alone}

abbrev pub is_greeted : Phase → Bool
is_greeted greeted = true
is_greeted _ = false

Alone-clear : (s : Storage) → Alone 0 false s → Alone 0 false (Storage.clear s).0
unfolding Storage.clear
Alone-clear s h = ground (arith, h.disk, h.wal, h.mode, h.bound)

items-clear : (s : Storage) → s.disk ≡ none → (Storage.clear s).0.items ≡ []
unfolding Storage.clear
items-clear s e = ground arith

pub run_replsync :
    (m : Moment) (w : World)
    → w.store.disk ≡ none
    → follow m replsync_text (fresh_link w) ≡ record w {
      store = (Storage.clear w.store).0;
      replica_link = some true;
      get_hit = some false;
    }
unfolding execute_line execute_verb replsync to_upper upper trim trim_end next_token skip_mark
    skip_space span_token span is_space bytes_eq
run_replsync m w e = refl

ok-clear : (s : Storage) → s.disk ≡ none → (Storage.clear s).1 ≡ true
unfolding Storage.clear
ok-clear s e = ground arith

pub replsync-reply :
    (m : Moment) (w : World)
    → w.store.disk ≡ none
    → (execute_line true m replsync_text (fresh_link w)).1.reply ≡ codes "OK"
unfolding execute_line execute_verb replsync to_upper upper trim trim_end next_token skip_mark
    skip_space span_token span is_space bytes_eq
replsync-reply m w e = rw (ok-clear w.store e) refl

-- The handshake clears the follower.
pub follow-replsync :
    (m : Moment) (w : World)
    → IsReplica w
    → IsReplica (follow m replsync_text (fresh_link w))
      × ((k : Bytes) → held k (follow m replsync_text (fresh_link w)) ≡ none)
unfolding entries find
follow-replsync m w h = rw (run_replsync m w h.store.alone.disk) (
  record {
    store = record {
      valid = clear-IsValid w.store h.store.valid;
      alone = Alone-clear w.store h.store.alone;
    };
    link = refl;
    alone = h.alone;
  },
  λ k. ap (λ l. find k (entries l)) (items-clear w.store h.store.alone.disk),
)

-- A phase in which nothing is claimed of the follower's map.
quiet_phase :
    (i : ℕ) (s : Sync) (phase : Phase) (held' : Bytes → Option Bytes) (late : ℕ)
    → is_sending phase ≡ false
    → IsSynced i s
    → Follows i held' ((late ≡ 0) × (is_sending phase ≡ true)) s.leader
quiet_phase i s phase held' late off h =
    Follows-claim i (ahead h.sent s.phase s.follower) held' (Live s)
      ((late ≡ 0) × (is_sending phase ≡ true)) s.leader (λ l. absurd (false≢true (sym off ∙ l.1)))
      h.follows

module _ (i : ℕ) (s : Sync) (h : IsSynced i s) where
  checked_to :
      (phase : Phase)
      → is_sending phase ≡ false
      → is_greeted phase ≡ false
      → All IsClean (rest_of phase)
      → IsSynced i (record s { phase = phase })
  checked_to phase off other rest = record {
    valid = h.valid;
    memory = h.memory;
    sendable = h.sendable;
    replica = h.replica;
    sent = h.sent;
    sent_lines = h.sent_lines;
    sent_clean = h.sent_clean;
    rest_clean = rest;
    stale_lines = h.stale_lines;
    follows = quiet_phase i s phase (ahead h.sent phase s.follower) s.late off h;
    cleared = λ e. absurd (false≢true (sym other ∙ ap is_greeted e));
  }

  pub checked : (b : Bool) → IsSynced i (record s { phase = if b then ended else connecting })
  checked true = checked_to ended refl refl tt
  checked false = checked_to connecting refl refl tt

  pub greeted_by :
      (m : Moment)
      → (execute_line true m replsync_text (fresh_link s.follower)).1.reply ≡ codes "OK"
      → IsSynced i (after_greet m s)
  unfolding after_greet
  greeted_by m ok =
      let (replica, empty) = follow-replsync m s.follower h.replica in
      record {
        valid = h.valid;
        memory = h.memory;
        sendable = h.sendable;
        replica = replica;
        sent = [];
        sent_lines = refl;
        sent_clean = tt;
        rest_clean = tt;
        stale_lines = h.stale_lines;
        follows =
            quiet_phase i s greeted
              (ahead [] greeted (follow m replsync_text (fresh_link s.follower))) 0 refl h;
        cleared = λ _ _. (refl, empty);
      }
