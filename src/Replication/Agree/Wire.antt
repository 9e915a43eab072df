-- ===== src/Replication/Agree/Wire.antt =====
-- The lines of `sender_loop` of src/replication.cpp on their way to the follower.
use mathlib.Core.Path.{subst}
use mathlib.Core.Bool.{false≢true}
use mathlib.Core.List.{map}
use redon.Prelude.{
  List-cases, ℕ, ◌+◌, ◌≡◌, ap, sym, ◌∙◌, true, Bytes, List, [], ◌∷◌, ◌++◌, map-append, some, arith,
  append_assoc, All, All-append, cons-ne-nil, inl, inr,
}
use redon.Wal.{LogRecord}
use redon.Wal.View.{view_from, view_from-append}
use redon.Replication.{set_line}
use redon.Replication.Lines.{line_of, IsClean, IsReplica, follow, held}
use redon.Replication.Queue.{Follows-claim}
use redon.Replication.Sender.{sending, Sync, replsync_text, fresh_link}
use redon.Replication.Agree.{
  Sent, sent_line, IsCleanSent, IsLine, sent_records, set_of, rest_of, is_sending, Live, ahead,
  IsSynced, sent_records-append, sent_text_of, follow-sent,
}
use redon.Raft.{Moment}
use redon.Replication.Agree.Handshake.{is_greeted, follow-replsync}

module _ (i : ℕ) (s : Sync) (h : IsSynced i s) where
  pub snapshot_sent :
      (key value : Bytes) (rest : List (Bytes × Bytes))
      → s.phase ≡ sending ((key, value) ∷ rest)
      → IsSynced i (record s { phase = sending rest; wire = s.wire ++ set_line key value ∷ [] })
  unfolding line_of
  snapshot_sent key value rest e =
      let r = LogRecord.set key value in
      let clean = subst (λ ph. All IsClean (rest_of ph)) e h.rest_clean in
      record {
        valid = h.valid;
        memory = h.memory;
        sendable = h.sendable;
        replica = h.replica;
        sent = h.sent ++ some r ∷ [];
        sent_lines =
            ap (λ w. w ++ set_line key value ∷ []) h.sent_lines
            ∙ sym (map-append sent_line h.sent (some r ∷ []));
        sent_clean = All-append IsCleanSent h.sent (some r ∷ []) h.sent_clean (clean.0, tt);
        rest_clean = clean.1;
        stale_lines = h.stale_lines;
        follows =
            Follows-claim i (ahead h.sent s.phase s.follower)
              (ahead (h.sent ++ some r ∷ []) (sending rest) s.follower) (Live s)
              ((s.late ≡ 0) × (true ≡ true)) s.leader
              (λ l. (
                (l.0, ap is_sending e),
                λ k.
                    ap (λ rs. view_from rs k (held k s.follower))
                      (ap (λ rs. rs ++ map set_of rest) (sent_records-append h.sent (some r ∷ []))
                        ∙ append_assoc (sent_records h.sent) (r ∷ []) (map set_of rest)
                        ∙ ap (λ ph. sent_records h.sent ++ rest_of ph) (sym e)),
              ))
              h.follows;
        cleared = λ z. absurd (false≢true (ap is_greeted z));
      }

  delivered_sent :
      (m : Moment) (line : Bytes) (rest : List Bytes) (x : Sent) (xs : List Sent)
      → h.sent ≡ x ∷ xs
      → (line ++ b'\n' ∷ []) ∷ rest ≡ sent_line x ∷ map sent_line xs
      → IsSynced i (record s { wire = rest; follower = follow m line s.follower })
  delivered_sent m line rest x xs z lines =
      let text = sent_text_of x line (ground arith) in
      let clean = subst (All IsCleanSent) z h.sent_clean in
      let (replica, seen) = follow-sent m x s.follower clean.0 h.replica in
      record {
        valid = h.valid;
        memory = h.memory;
        sendable = h.sendable;
        replica = subst (λ l. IsReplica (follow m l s.follower)) (sym text) replica;
        sent = xs;
        sent_lines = ground arith;
        sent_clean = clean.1;
        rest_clean = h.rest_clean;
        stale_lines = h.stale_lines;
        follows =
            Follows-claim i (ahead h.sent s.phase s.follower)
              (ahead xs s.phase (follow m line s.follower)) (Live s) (Live s) s.leader
              (λ l. (
                l,
                λ k.
                    view_from-append (sent_records xs) (rest_of s.phase) k
                      (held k (follow m line s.follower))
                    ∙ ap (view_from (rest_of s.phase) k) (
                        ap (λ t. view_from (sent_records xs) k (held k (follow m t s.follower)))
                          text
                        ∙ seen xs k
                        ∙ ap (λ ys. view_from (sent_records ys) k (held k s.follower)) (sym z))
                    ∙ sym (
                        view_from-append (sent_records h.sent) (rest_of s.phase) k
                          (held k s.follower)),
              ))
              h.follows;
        cleared = λ g l. absurd (cons-ne-nil _ _ (sym z ∙ (h.cleared g l).0));
      }

  pub delivered :
      (m : Moment) (line : Bytes) (rest : List Bytes)
      → s.wire ≡ (line ++ b'\n' ∷ []) ∷ rest
      → IsSynced i (record s { wire = rest; follower = follow m line s.follower })
  delivered m line rest e = elim (List-cases h.sent) [
    | inl z ↦ absurd (cons-ne-nil _ _ (sym e ∙ h.sent_lines ∙ ap (map sent_line) z))
    | inr (x, xs, z) ↦
        delivered_sent m line rest x xs z (sym e ∙ h.sent_lines ∙ ap (map sent_line) z)
  ]

  pub run_late :
      (m : Moment) (line : Bytes) (rest : List Bytes)
      → s.stale ≡ (line ++ b'\n' ∷ []) ∷ rest
      → IsSynced i
          (record s { stale = rest; late = s.late + 1; follower = follow m line s.follower })
  run_late m line rest e =
      let ((x, clean, is), others) = subst (All IsLine) e h.stale_lines in
      let text = sent_text_of x line is in
      let replica =
        subst (λ l. IsReplica (follow m l s.follower)) (sym text)
          (follow-sent m x s.follower clean h.replica).0 in
      record {
        valid = h.valid;
        memory = h.memory;
        sendable = h.sendable;
        replica = replica;
        sent = h.sent;
        sent_lines = h.sent_lines;
        sent_clean = h.sent_clean;
        rest_clean = h.rest_clean;
        stale_lines = others;
        follows =
            Follows-claim i (ahead h.sent s.phase s.follower)
              (ahead h.sent s.phase (follow m line s.follower)) (Live s)
              ((s.late + 1 ≡ 0) × (is_sending s.phase ≡ true)) s.leader
              (λ l. absurd (omega (arith, l.0))) h.follows;
        cleared = λ _ l. absurd (omega (arith, l));
      }

  pub run_lost :
      (m : Moment)
      → IsSynced i (record s {
        late = s.late + 1;
        follower = follow m replsync_text (fresh_link s.follower);
      })
  run_lost m = record {
    valid = h.valid;
    memory = h.memory;
    sendable = h.sendable;
    replica = (follow-replsync m s.follower h.replica).0;
    sent = h.sent;
    sent_lines = h.sent_lines;
    sent_clean = h.sent_clean;
    rest_clean = h.rest_clean;
    stale_lines = h.stale_lines;
    follows =
        Follows-claim i (ahead h.sent s.phase s.follower)
          (ahead h.sent s.phase (follow m replsync_text (fresh_link s.follower))) (Live s)
          ((s.late + 1 ≡ 0) × (is_sending s.phase ≡ true)) s.leader
          (λ l. absurd (omega (arith, l.0))) h.follows;
    cleared = λ _ l. absurd (omega (arith, l));
  }

  pub reset : IsSynced i (record s { stale = [] })
  reset = record {
    valid = h.valid;
    memory = h.memory;
    sendable = h.sendable;
    replica = h.replica;
    sent = h.sent;
    sent_lines = h.sent_lines;
    sent_clean = h.sent_clean;
    rest_clean = h.rest_clean;
    stale_lines = tt;
    follows = h.follows;
    cleared = h.cleared;
  }
