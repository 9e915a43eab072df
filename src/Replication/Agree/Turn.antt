-- ===== src/Replication/Agree/Turn.antt =====
-- A turn of the streaming loop of `sender_loop` of src/replication.cpp.
use mathlib.Core.Path.{subst}
use mathlib.Core.Bool.{false≢true}
use mathlib.Core.Option.{some-injective}
use mathlib.Core.List.{map, head-eq_of_cons-eq, tail-eq_of_cons-eq}
use redon.Prelude.{
  List-cases, ℕ, ◌≡◌, refl, ap, sym, ◌∙◌, true, false, ◌||◌, Bytes, List, [], ◌∷◌, ◌++◌, map-append,
  none, some, arith, append-nil, All, All-append, cons-ne-nil, ◌⊎◌, inl, inr, Bool-cases,
}
use redon.Wal.{LogRecord}
use redon.Wal.View.{view_from, view_from-append}
use redon.Replication.{Link, leave, ping, send, take_line}
use redon.Replication.Lines.{line_of, IsClean, held}
use redon.Replication.Queue.{Pending, Follows-change_link}
use redon.Replication.Sender.{leaving, sending, Sync, link_of, change_link, after_turn}
use redon.Replication.Agree.{
  Sent, sent_line, IsCleanSent, sent_records, rest_of, is_sending, Live, ahead, IsSynced,
  sent_records-append,
}
use redon.Storage.Valid.{SameCache-IsValid}
use redon.Replication.Agree.Handshake.{is_greeted}
use redon.Replication.Agree.Leave.{left}
use redon.Replication.Agree.Leader.{SameCache-change_link, disk-change_link, relinked-IsSendable}

-- The three outcomes of a turn.
take_leave :
    (l : Link)
    → (l.stop || l.resync_needed) ≡ true
    → take_line l ≡ (record l { resync_needed = false }, leave)
unfolding take_line
take_leave l e = ground arith

pub take_ping :
    (l : Link) → (l.stop || l.resync_needed) ≡ false → l.queue ≡ [] → take_line l ≡ (l, ping)
unfolding take_line
take_ping l e z = ground arith

pub take_send :
    (l : Link) (line : Bytes) (rest : List Bytes)
    → (l.stop || l.resync_needed) ≡ false
    → l.queue ≡ line ∷ rest
    → take_line l ≡ (record l { queue = rest }, send line)
unfolding take_line
take_send l line rest e z = ground arith

queue-take_leave : (l : Link) → (l.stop || l.resync_needed) ≡ true → (take_line l).0.queue ≡ l.queue
queue-take_leave l e = ap (λ r. r.0.queue) (take_leave l e)

All-behind {ℓ κ} : {A : Type ℓ} (P : A → Type κ) (xs ys : List A) → All P (xs ++ ys) → All P ys
All-behind P [] ys h = h
All-behind P (x ∷ xs) ys h = All-behind P xs ys h.1

module _ (i : ℕ) (s : Sync) (h : IsSynced i s) where
  -- A turn of a link that is here to stay: the records move from its queue to the wire.
  turned :
      (link : Link) (f : Link → Link) (new : List Sent)
      → s.phase ≡ sending []
      → (at : link_of i s.leader ≡ some link) → All IsCleanSent new
      → (rs : List LogRecord) → (h.follows link at).records ≡ sent_records new ++ rs
      → (f link).queue ≡ map line_of rs
      → (f link).streaming ≡ link.streaming
      → IsSynced i (record s {
        leader = change_link i f s.leader;
        phase = sending [];
        wire = s.wire ++ map sent_line new;
      })
  turned link f new e at clean rs parts queue on =
      let t = change_link i f s.leader in
      record {
        valid = SameCache-IsValid s.leader t (SameCache-change_link i f s.leader) h.valid;
        memory = disk-change_link i f s.leader ∙ h.memory;
        sendable = relinked-IsSendable i s h t (SameCache-change_link i f s.leader);
        replica = h.replica;
        sent = h.sent ++ new;
        sent_lines =
            ap (λ w. w ++ map sent_line new) h.sent_lines ∙ sym (map-append sent_line h.sent new);
        sent_clean = All-append IsCleanSent h.sent new h.sent_clean clean;
        rest_clean = tt;
        stale_lines = h.stale_lines;
        follows =
            Follows-change_link i f (ahead h.sent s.phase s.follower)
              (ahead (h.sent ++ new) (sending []) s.follower) (Live s)
              ((s.late ≡ 0) × (true ≡ true)) s.leader
              (λ link' at' p'.
                let same : link ≡ link' = some-injective link link' (sym at ∙ at') in
                subst
                  (λ l.
                    Pending (ahead (h.sent ++ new) (sending []) s.follower)
                      ((s.late ≡ 0) × (true ≡ true)) (f l) s.leader)
                  same turned-Pending)
              h.follows;
        cleared = λ g. absurd (false≢true (ap is_greeted g));
      }
    where
      turned-Pending :
          Pending
            (ahead (h.sent ++ new) (sending []) s.follower)
            ((s.late ≡ 0) × (true ≡ true))
            (f link)
            s.leader
      turned-Pending =
          let p = h.follows link at in
          record {
            records = rs;
            lines = queue;
            clean = All-behind IsClean (sent_records new) rs (subst (All IsClean) parts p.clean);
            agree = λ l streaming k.
                let h0 = held k s.follower in
                ap (view_from rs k) (
                  ap (λ l. view_from l k h0)
                    (append-nil (sent_records (h.sent ++ new)) ∙ sent_records-append h.sent new)
                  ∙ view_from-append (sent_records h.sent) (sent_records new) k h0)
                ∙ sym (
                    view_from-append (sent_records new) rs k (view_from (sent_records h.sent) k h0))
                ∙ ap (λ l. view_from l k (view_from (sent_records h.sent) k h0)) (sym parts)
                ∙ ap (λ l. view_from p.records k (view_from l k h0))
                    (sym (append-nil (sent_records h.sent))
                      ∙ ap (λ ph. sent_records h.sent ++ rest_of ph) (sym e))
                ∙ p.agree (l.0, ap is_sending e) (sym on ∙ streaming) k;
          }

  pub turn_taken :
      (link : Link)
      → s.phase ≡ sending []
      → link_of i s.leader ≡ some link
      → IsSynced i (after_turn i link s)
  unfolding after_turn
  turn_taken link e at = elim (Bool-cases (link.stop || link.resync_needed)) [
    | inl leaves ↦ rw (take_leave link leaves) (
        subst
          (λ w.
            IsSynced i
              (record s { leader = change_link i take s.leader; phase = leaving; wire = w }))
          (sym h.sent_lines ∙ sym (append-nil s.wire))
          (left i s h take leaving h.sent s.stale (λ l at'. inl (leaving_queue leaves l at')) refl
            refl tt h.sent_clean h.stale_lines))
    | inr stays ↦ elim (List-cases link.queue) [
      | inl empty ↦
          let took = take_ping link stays empty in
          rw took (
            turned link take (none ∷ []) e at (tt, tt) (h.follows link at).records refl
              (ap (λ r. r.0.queue) took ∙ (h.follows link at).lines) (ap (λ r. r.0.streaming) took))
      | inr (line, rest, z) ↦ rw (take_send link line rest stays z) (
          sent_turn line rest (take_send link line rest stays z) (sym z ∙ (h.follows link at).lines)
            (List-cases (h.follows link at).records))
    ]
  ]
    where
      take : Link → Link
      take = λ l. (take_line l).0

      leaving_queue :
          (link.stop || link.resync_needed) ≡ true
          → (l : Link) → link_of i s.leader ≡ some l
          → (take l).queue ≡ l.queue
      leaving_queue leaves l at' =
          let same : link ≡ l = some-injective link l (sym at ∙ at') in
          queue-take_leave l (ap (λ x. x.stop || x.resync_needed) (sym same) ∙ leaves)

      sent_turn :
          (line : Bytes) (rest : List Bytes)
          → take_line link ≡ (record link { queue = rest }, send line)
          → line ∷ rest ≡ map line_of (h.follows link at).records
          → ((h.follows link at).records ≡ [])
            ⊎ ((r : LogRecord) × (rs : List LogRecord) × ((h.follows link at).records ≡ r ∷ rs))
          → IsSynced i (record s {
            leader = change_link i take s.leader;
            phase = sending [];
            wire = s.wire ++ line ∷ [];
          })
      sent_turn line rest took lines (inl none_left) =
          absurd (cons-ne-nil _ _ (lines ∙ ap (map line_of) none_left))
      sent_turn line rest took lines (inr (r, rs, parts)) =
          let heads = lines ∙ ap (map line_of) parts in
          let clean = subst (All IsClean) parts (h.follows link at).clean in
          subst
            (λ x. IsSynced i (record s {
              leader = change_link i take s.leader;
              phase = sending [];
              wire = s.wire ++ x ∷ [];
            }))
            (sym (head-eq_of_cons-eq heads))
            (turned link take (some r ∷ []) e at (clean.0, tt) rs parts
              (ap (λ x. x.0.queue) took ∙ tail-eq_of_cons-eq heads) (ap (λ x. x.0.streaming) took))
