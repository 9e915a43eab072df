-- ===== src/Replication/Agree/Cut.antt =====
-- The cut of `snapshot_locked` of src/storage.cpp in `sender_loop` of src/replication.cpp.
use mathlib.Core.Bool.{false≢true}
use mathlib.Core.List.{map}
use redon.Prelude.{
  ℕ, ◌≡◌, refl, ap, ◌∙◌, Bool, true, Bytes, List, [], ◌∷◌, ◌++◌, none, some, arith, All,
  bytes_eq_iff, bytes_eq_refl,
}
use redon.Assoc.{find, Distinct}
use redon.Wal.{LogRecord}
use redon.Wal.View.{view_from}
use redon.Replication.{Link, begin_streaming}
use redon.Replication.Lines.{IsClean, held}
use redon.Replication.Queue.{Pending, Follows-change_link}
use redon.Replication.Sender.{greeted, sending, Sync, change_link, after_cut}
use redon.Replication.Agree.{sent_records, set_of, Live, ahead, IsSynced, snapshot-view}
use redon.Storage.{Storage}
use redon.Storage.{Node}
use redon.Storage.Nodes.{DistinctKeys}
use redon.Storage.Snapshot.{snapshot_locked, pair_of}
use redon.Storage.Lru.{entries, find-entries, value_of}
use redon.Storage.Valid.{SameCache-IsValid}
use redon.Replication.Agree.Handshake.{is_greeted}
use redon.Replication.Agree.Leader.{SameCache-change_link, disk-change_link, relinked-IsSendable}

pairs : (l : List Node) → map pair_of l ≡ entries l
unfolding entries
pairs [] = refl
pairs (n ∷ l) = ap (◌∷◌ (n.key, n.value)) (pairs l)

snapshot_memory :
    (f : Storage → Storage) (opened : Bool) (contents : Bytes) (s : Storage)
    → s.disk ≡ none
    → snapshot_locked f opened contents s ≡ (f s, entries s.items)
unfolding snapshot_locked
snapshot_memory f opened contents s e = ground (arith, pairs s.items)

after_cut_memory :
    (i : ℕ) (opened : Bool) (contents : Bytes) (s : Sync)
    → s.leader.disk ≡ none
    → after_cut i opened contents s ≡ record s {
      leader = change_link i begin_streaming s.leader;
      phase = sending (entries s.leader.items);
    }
unfolding after_cut
after_cut_memory i opened contents s e =
    ap (λ r. record s { leader = r.0; phase = sending r.1 })
      (snapshot_memory (change_link i begin_streaming) opened contents s.leader e)

Distinct-entries : (l : List Node) → DistinctKeys l → Distinct (entries l)
unfolding entries
Distinct-entries [] d = tt
Distinct-entries (n ∷ l) d = (find-entries n.key l ∙ ap value_of d.0, Distinct-entries l d.1)

All-snapshot :
    (l : List (Bytes × Bytes))
    → Distinct l
    → ((k v : Bytes) → find k l ≡ some v → IsClean (LogRecord.set k v))
    → All IsClean (map set_of l)
unfolding find
All-snapshot [] d h = tt
All-snapshot ((j, v) ∷ l) d h = (
  h j v (ground (arith, bytes_eq_refl j)),
  All-snapshot l d.1 (λ k u e. h k u (ground (arith, bytes_eq_iff j k, d.0, e))),
)

module _ (i : ℕ) (s : Sync) (h : IsSynced i s) where
  cut-Pending :
      (link : Link)
      → s.phase ≡ greeted
      → Pending
          (ahead h.sent (sending (entries s.leader.items)) s.follower)
          ((s.late ≡ 0) × (true ≡ true))
          (begin_streaming link)
          s.leader
  unfolding begin_streaming view_from
  cut-Pending link e =
      let snapshot = entries s.leader.items in
      record {
        records = [];
        lines = refl;
        clean = tt;
        agree = λ l on k.
            let (none_sent, empty) = h.cleared e l.0 in
            ap (λ xs. view_from (sent_records xs ++ map set_of snapshot) k (held k s.follower))
              none_sent
            ∙ ap (view_from (map set_of snapshot) k) (empty k)
            ∙ snapshot-view snapshot k (Distinct-entries s.leader.items h.valid.keys);
      }

  pub cut :
      (opened : Bool) (contents : Bytes)
      → s.phase ≡ greeted
      → IsSynced i (after_cut i opened contents s)
  cut opened contents e = rw (after_cut_memory i opened contents s h.memory) (
      let distinct = Distinct-entries s.leader.items h.valid.keys in
      let snapshot = entries s.leader.items in
      let t = change_link i begin_streaming s.leader in
      record {
        valid =
            SameCache-IsValid s.leader t (SameCache-change_link i begin_streaming s.leader) h.valid;
        memory = disk-change_link i begin_streaming s.leader ∙ h.memory;
        sendable = relinked-IsSendable i s h t (SameCache-change_link i begin_streaming s.leader);
        replica = h.replica;
        sent = h.sent;
        sent_lines = h.sent_lines;
        sent_clean = h.sent_clean;
        rest_clean = All-snapshot snapshot distinct h.sendable;
        stale_lines = h.stale_lines;
        follows =
            Follows-change_link i begin_streaming (ahead h.sent s.phase s.follower)
              (ahead h.sent (sending snapshot) s.follower) (Live s) ((s.late ≡ 0) × (true ≡ true))
              s.leader (λ link at p. cut-Pending link e) h.follows;
        cleared = λ z. absurd (false≢true (ap is_greeted z));
      })
