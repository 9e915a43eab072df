-- ===== src/Replication/CatchUp.antt =====
-- What the sender of src/replication.cpp and its follower do by themselves, once a session streams.
use redon.Prelude.{
  ℕ, zero, suc, ◌≡◌, refl, ap, sym, ◌∙◌, true, false, ◌||◌, Bytes, List, [], ◌∷◌, ◌++◌, map, some,
  arith, Option-cases, inl, inr,
}
use redon.Assoc.{find}
use redon.Storage
use redon.Storage.{Storage}
use redon.Storage.Lru.{entries}
use redon.Storage.Lru.Reads.{get-used}
use redon.Raft.{Moment}
use redon.Command.{World}
use redon.Replication.{Replicator, Link, link_at, update_link, take_line, set_line}
use redon.Replication.Lines.{follow}
use redon.Replication.Sender.{
  Phase, sending, Sync, link_of, change_link, turn_phase, after_turn, SyncStep, snapshot_step,
  turn_step, deliver_step, SyncRun,
}
use redon.Replication.Onward.{Onward, Onward-here, Onward-before, Onward-both, run_both}
use redon.Replication.Agree.{Sent, sent_line, sent_text, sent_line-eq}
use redon.Replication.Agree.Turn.{take_send}
use redon.Replication.Converge.{
  new_sync, IsReady, IsQuiet, new_sync-IsSynced, SyncRun-IsSynced, quiet_agree,
}

link_at-update_same :
    (i : ℕ) (f : Link → Link) (l : Replicator) (link : Link)
    → link_at i l ≡ some link
    → link_at i (update_link i f l) ≡ some (f link)
unfolding link_at update_link
link_at-update_same i f [] link e = absurd (ground arith)
link_at-update_same zero f (x ∷ l) link e = ground arith
link_at-update_same (suc i) f (x ∷ l) link e = link_at-update_same i f l link e

pub link_of-change_link :
    (i : ℕ) (f : Link → Link) (s : Storage) (link : Link)
    → link_of i s ≡ some link
    → link_of i (change_link i f s) ≡ some (f link)
unfolding change_link
link_of-change_link i f s link = elim (Option-cases s.replicator) [
  | inl z ↦ rw z (λ e. absurd (ground arith))
  | inr (x, z) ↦ rw z (λ e. link_at-update_same i f x link e)
]

items-change_link : (i : ℕ) (f : Link → Link) (s : Storage) → (change_link i f s).items ≡ s.items
unfolding change_link
items-change_link i f s = ground arith

-- A session: the link streams, nobody has stopped it, and no stale line has been run.
pub record IsSession (i : ℕ) (s : Sync) : Type 0 where
  pub link : Link
  pub at : link_of i s.leader ≡ some link
  pub streaming : link.streaming ≡ true
  pub going : (link.stop || link.resync_needed) ≡ false
  pub on_time : s.late ≡ 0

-- A part of the way: where the sender is then, and what has stayed.
record Went (i : ℕ) (phase : Phase) (s : Sync) : Type 0 where
  end : Sync
  run : Onward i s end
  past : end.phase ≡ phase
  session : IsSession i end
  items : end.leader.items ≡ s.leader.items

module _ (i : ℕ) (m : Moment) where
  send_snapshot :
      (snapshot : List (Bytes × Bytes)) (s : Sync)
      → s.phase ≡ sending snapshot
      → IsSession i s
      → Went i (sending []) s
  send_snapshot [] s e h = record {
    end = s;
    run = Onward-here s;
    past = e;
    session = h;
    items = refl;
  }
  send_snapshot ((key, value) ∷ rest) s e h =
      let t : Sync = record s { phase = sending rest; wire = s.wire ++ set_line key value ∷ [] } in
      let w = send_snapshot rest t refl (record {
        link = h.link;
        at = h.at;
        streaming = h.streaming;
        going = h.going;
        on_time = h.on_time;
      }) in
      record {
        end = w.end;
        run = Onward-before (snapshot_step key value rest s e) tt w.run;
        past = w.past;
        session = w.session;
        items = w.items;
      }

  turned :
      (line : Bytes) (rest : List Bytes) (s : Sync) (h : IsSession i s)
      → h.link.queue ≡ line ∷ rest
      → (h' : IsSession i (after_turn i h.link s)) × (h'.link.queue ≡ rest)
  unfolding after_turn
  turned line rest s h z =
      let took = take_send h.link line rest h.going z in
      (
        record {
          link = record h.link { queue = rest };
          at =
              link_of-change_link i (λ l. (take_line l).0) s.leader h.link h.at
              ∙ ap (λ r. some r.0) took;
          streaming = h.streaming;
          going = h.going;
          on_time = h.on_time;
        },
        refl,
      )

  send_queue :
      (queue : List Bytes) (s : Sync)
      → s.phase ≡ sending []
      → (h : IsSession i s) → h.link.queue ≡ queue
      → (w : Went i (sending []) s) × (w.session.link.queue ≡ [])
  unfolding after_turn
  send_queue [] s e h z =
      (record { end = s; run = Onward-here s; past = e; session = h; items = refl }, z)
  send_queue (line ∷ rest) s e h z =
      let took = take_send h.link line rest h.going z in
      let t = after_turn i h.link s in
      let (h', left) = turned line rest s h z in
      let (w, done) = send_queue rest t (ap (λ r. turn_phase r.1) took) h' left in
      (
        record {
          end = w.end;
          run = Onward-before (turn_step h.link s e h.at) tt w.run;
          past = w.past;
          session = w.session;
          items = w.items ∙ items-change_link i (λ l. (take_line l).0) s.leader;
        },
        done,
      )

  -- The follower runs what is on the wire.
  run_wire :
      (sent : List Sent) (s : Sync)
      → s.wire ≡ map sent_line sent
      → (t : Sync) × Onward i s t
        × (t.wire ≡ [])
        × (t.phase ≡ s.phase)
        × (t.leader ≡ s.leader)
        × (t.late ≡ s.late)
  run_wire [] s e = (s, Onward-here s, e, refl, refl, refl)
  run_wire (x ∷ xs) s e =
      let t : Sync = record s {
        wire = map sent_line xs;
        follower = follow m (sent_text x) s.follower;
      } in
      let step : SyncStep i s t =
        deliver_step m (sent_text x) (map sent_line xs) s
          (e ∙ ap (λ l. l ∷ map sent_line xs) (sent_line-eq x)) in
      let (u, run, wire, phase, leader, late) = run_wire xs t refl in
      (u, Onward-before step tt run, wire, phase, leader, late)

-- Wherever a session stands, its sender and its follower alone can bring it to its end: by sending what
-- is left of the snapshot, by the turns of the streaming loop and by running the lines that were sent,
-- with no write, no broken connection and no new handshake in between, a state is reached in which
-- nothing is left to send or to run and every GET of the follower answers what the leader answers now.
-- The leader is in memory, the follower has no bound and no log, nobody has stopped the link, and no
-- line of an earlier connection has been run.
pub catches_up :
    (i : ℕ) (m : Moment) (addrs : List Bytes) (leader : Storage) (follower : World) (s : Sync)
    (snapshot : List (Bytes × Bytes))
    → IsReady leader follower
    → SyncRun i (new_sync addrs leader follower) s
    → s.phase ≡ sending snapshot
    → IsSession i s
    → (t : Sync) × Onward i s t
      × IsQuiet i t
      × ((k : Bytes) → (Storage.get k t.follower.store).1 ≡ (Storage.get k s.leader).1)
catches_up i m addrs leader follower s snapshot ready run e h =
    let sent = send_snapshot i m snapshot s e h in
    let (queued, empty) =
      send_queue i m sent.session.link.queue sent.end sent.past sent.session refl in
    let before : Onward i s queued.end = Onward-both sent.run queued.run in
    let kept =
      SyncRun-IsSynced i addrs leader follower ready (run_both run before.run)
        (new_sync-IsSynced i addrs leader follower ready) in
    let (t, ran, wire, phase, same, late) = run_wire i m kept.sent queued.end kept.sent_lines in
    let quiet : IsQuiet i t = record {
      link = queued.session.link;
      at = ap (link_of i) same ∙ queued.session.at;
      streaming = queued.session.streaming;
      past = phase ∙ queued.past;
      wire = wire;
      queue = empty;
      on_time = late ∙ queued.session.on_time;
    } in
    let all : Onward i s t = Onward-both before ran in
    let start = new_sync-IsSynced i addrs leader follower ready in
    let now = SyncRun-IsSynced i addrs leader follower ready run start in
    let end = SyncRun-IsSynced i addrs leader follower ready (run_both run all.run) start in
    (
      t,
      all,
      quiet,
      λ k.
          (get-used k t.follower.store end.replica.store.valid end.replica.store.alone.disk).0
          ∙ quiet_agree i t end quiet k
          ∙ ap (λ l. find k (entries l)) (ap (λ l. l.items) same ∙ queued.items ∙ sent.items)
          ∙ sym (get-used k s.leader now.valid now.memory).0,
    )
