-- ===== src/Replication/Converge.antt =====
-- A leader of src/replication.cpp and one of its followers, over whole runs.
use mathlib.Core.Option.{some-injective}
use mathlib.Core.Bool.{false≢true}
use redon.Prelude.{
  ℕ, zero, suc, ◌≡◌, refl, ap, sym, ◌∙◌, true, Bytes, List, [], ◌∷◌, ◌++◌, map, Option, none, some,
  arith, cons-ne-nil,
}
use redon.Assoc.{find}
use redon.Text.Address.{split_host_port}
use redon.Wal.View.{view_from}
use redon.Storage
use redon.Storage.{Storage, attach_replicator}
use redon.Storage.Valid.{IsValid}
use redon.Storage.Lru.Refines.{view}
use redon.Storage.Lru.Reads.{get-used}
use redon.Command.{World}
use redon.Replication.{Replicator, Link, new_links, new_replicator, link_at}
use redon.Replication.Lines.{line_of, IsReplica, held}
use redon.Replication.Stream.{IsSendable}
use redon.Replication.Sender.{idle, sending, Sync, link_of, SyncRun, here, then_step}
use redon.Replication.Agree.{sent_line, IsSynced, ahead, is_sending}
use redon.Replication.Agree.Kept.{IsSynced-Step}
use redon.Replication.Agree.Handshake.{is_greeted}

-- A leader that has just attached its links, and a follower.
unfoldable pub new_sync : List Bytes → Storage → World → Sync
new_sync addrs leader follower = record {
  leader = attach_replicator (some (new_replicator addrs)) leader;
  phase = idle;
  wire = [];
  stale = [];
  late = 0;
  follower = follower;
}

new_links-queue :
    (i : ℕ) (o : Option (Bytes × ℕ)) (l : Replicator) (link : Link)
    → ((j : ℕ) → link_at j l ≡ some link → link.queue ≡ [])
    → link_at i (new_links o ++ l) ≡ some link
    → link.queue ≡ []
unfolding new_links link_at
new_links-queue i none l link h e = h i e
new_links-queue zero (some (host, port)) l link h e =
    sym (ap (λ x. x.queue) (some-injective _ link e))
new_links-queue (suc i) (some (host, port)) l link h e = h i e

new_replicator-queue :
    (addrs : List Bytes) (link : Link) (i : ℕ)
    → link_at i (new_replicator addrs) ≡ some link
    → link.queue ≡ []
unfolding new_replicator link_at
new_replicator-queue [] link i e = absurd (ground arith)
new_replicator-queue (addr ∷ addrs) link i e =
    new_links-queue i (split_host_port addr) (new_replicator addrs) link
      (new_replicator-queue addrs link) e

-- What the runs start from.
pub record IsReady (leader : Storage) (follower : World) : Type 0 where
  pub valid : IsValid leader
  pub memory : leader.disk ≡ none
  pub sendable : IsSendable leader
  pub replica : IsReplica follower

module _ (i : ℕ) (addrs : List Bytes) (leader : Storage) (follower : World)
    (ready : IsReady leader follower) where
  pub new_sync-IsSynced : IsSynced i (new_sync addrs leader follower)
  unfolding new_sync attach_replicator
  new_sync-IsSynced = record {
    valid = ready.valid;
    memory = ready.memory;
    sendable = ready.sendable;
    replica = ready.replica;
    sent = [];
    sent_lines = refl;
    sent_clean = tt;
    rest_clean = tt;
    stale_lines = tt;
    follows = λ link e. record {
      records = [];
      lines = new_replicator-queue addrs link i e;
      clean = tt;
      agree = λ l. absurd (false≢true l.1);
    };
    cleared = λ e. absurd (false≢true (ap is_greeted e));
  }

  pub SyncRun-IsSynced : {s t : Sync} → SyncRun i s t → IsSynced i s → IsSynced i t
  SyncRun-IsSynced (here s) h = h
  SyncRun-IsSynced (then_step run step) h = IsSynced-Step step (SyncRun-IsSynced run h)

-- The follower has run what there is to run.
pub record IsQuiet (i : ℕ) (s : Sync) : Type 0 where
  pub link : Link
  pub at : link_of i s.leader ≡ some link
  pub streaming : link.streaming ≡ true
  pub past : s.phase ≡ sending []
  pub wire : s.wire ≡ []
  pub queue : link.queue ≡ []
  pub on_time : s.late ≡ 0

nil_of_map {ℓ κ} : {A : Type ℓ} {B : Type κ} (f : A → B) (l : List A) → map f l ≡ [] → l ≡ []
nil_of_map f [] e = refl
nil_of_map f (x ∷ l) e = absurd (cons-ne-nil _ _ e)

pub quiet_agree :
    (i : ℕ) (s : Sync)
    → IsSynced i s
    → IsQuiet i s
    → (k : Bytes) → held k s.follower ≡ find k (view s.leader)
unfolding view_from
quiet_agree i s h q k =
    let p = h.follows q.link q.at in
    let no_records : p.records ≡ [] = nil_of_map line_of p.records (sym p.lines ∙ q.queue) in
    let none_sent : h.sent ≡ [] = nil_of_map sent_line h.sent (sym h.sent_lines ∙ q.wire) in
    sym (
      ap (λ ph. ahead h.sent ph s.follower k) q.past
      ∙ ap (λ xs. ahead xs (sending []) s.follower k) none_sent)
    ∙ ap (λ rs. view_from rs k (ahead h.sent s.phase s.follower k)) (sym no_records)
    ∙ p.agree (q.on_time, ap is_sending q.past) q.streaming k

same_answer :
    (i : ℕ) (s : Sync)
    → IsSynced i s
    → (k : Bytes) → held k s.follower ≡ find k (view s.leader)
    → (Storage.get k s.follower.store).1 ≡ (Storage.get k s.leader).1
same_answer i s h k e =
    (get-used k s.follower.store h.replica.store.valid h.replica.store.alone.disk).0
    ∙ e
    ∙ sym (get-used k s.leader h.valid h.memory).0

-- Whatever the leader's clients, the sender and the follower have done, in any order, with handshakes,
-- overflows and broken connections: while the link streams, once the snapshot, the queue and the wire
-- are empty, every GET of the follower answers what the same GET of the leader answers. It needs an
-- in-memory leader whose keys and values are those of its parser, a follower without a bound or a log,
-- and that the follower has run no line of an earlier connection since the handshake.
pub run-converges :
    (i : ℕ) (addrs : List Bytes) (leader : Storage) (follower : World) (s : Sync)
    → IsReady leader follower
    → SyncRun i (new_sync addrs leader follower) s
    → IsQuiet i s
    → (k : Bytes) → (Storage.get k s.follower.store).1 ≡ (Storage.get k s.leader).1
run-converges i addrs leader follower s ready run q k =
    let h =
      SyncRun-IsSynced i addrs leader follower ready run
        (new_sync-IsSynced i addrs leader follower ready) in
    same_answer i s h k (quiet_agree i s h q k)
