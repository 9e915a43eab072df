-- ===== src/Replication/Bounds.antt =====
-- The length of the queues of src/replication.cpp, over whatever the store and the senders do.
pub mod Links
pub mod Store
use mathlib.Core.Path.{subst}
use mathlib.Core.Option.{some-injective}
use redon.Prelude.{
  ℕ, zero, suc, ◌≤◌, ◌≡◌, refl, sym, Bool, true, false, Bytes, List, [], ◌∷◌, map, Option, none,
  some, arith, All, Option-cases, Bool-cases, inl, inr, length, length-append,
}
use redon.Assoc.{find}
use redon.Text.Address.{split_host_port}
use redon.Storage.{
  Node, Storage, back, log_set, log_del, replicate_set, replicate_del, drop_back, evict_lru_locked,
  evict_loop, set_existing, insert_front, splice_front, set_value, set_new, set_logged, set_memory,
  set_disk, set, get_memory, get, del_memory, del_disk, del, attach_replicator,
}
use redon.Disk
use redon.Disk.{DiskStore}
use redon.Storage.Snapshot.{snapshot_locked}
use redon.Command.{World}
use redon.Replication
use redon.Replication.{
  Replicator, Link, max_queue, enqueue_link, enqueue, new_links, new_replicator, update_link,
  stop_all, stop_link, begin_streaming, take_line, cleanup, link_at,
}
use redon.Replication.Sender.{
  Sync, link_of, change_link, stop_links, after_greet, after_cut, after_turn, after_cleanup,
  SyncStep, set_step, get_step, del_step, stop_step, check_step, greet_step, cut_step,
  snapshot_step, turn_step, cleanup_step, deliver_step, late_step, lost_greet_step, reset_step,
  SyncRun, here, then_step,
}
use redon.Replication.Converge.{new_sync}
use redon.Replication.Bounds.Links.{
  IsBoundedLink, IsBoundedStore, All-map, update-IsBounded, begin-IsBounded, take-IsBounded,
  cleanup-IsBounded, stop-IsBounded,
}
use redon.Replication.Bounds.Store.{Bounded, set-IsBounded, replicator-get, del-IsBounded}

change-IsBounded :
    (i : ℕ) (f : Link → Link) (s : Storage)
    → ((x : Link) → IsBoundedLink x → IsBoundedLink (f x))
    → Bounded s
    → Bounded (change_link i f s)
unfolding change_link
change-IsBounded i f s k = elim (Option-cases s.replicator) [
  | inl e ↦ rw (e, change_link) (λ h. rw e tt)
  | inr (r, e) ↦ rw (e, change_link) (λ h. update-IsBounded i f r k h)
]

stop_links-IsBounded : (s : Storage) → Bounded s → Bounded (stop_links s)
unfolding stop_links stop_all
stop_links-IsBounded s = elim (Option-cases s.replicator) [
  | inl e ↦ rw (e, stop_links) (λ h. rw e tt)
  | inr (r, e) ↦ rw (e, stop_links) (λ h. All-map IsBoundedLink stop_link r stop-IsBounded h)
]

snapshot-IsBounded :
    (f : Storage → Storage) (opened : Bool) (contents : Bytes) (s : Storage)
    → Bounded (f s)
    → Bounded (snapshot_locked f opened contents s).0
unfolding snapshot_locked
snapshot-IsBounded f opened contents s h = elim (Option-cases s.disk) [
  | inl e ↦ rw (e, snapshot_locked) h
  | inr (d, e) ↦ rw (e, snapshot_locked) h
]

new_replicator-IsBounded : (addrs : List Bytes) → All IsBoundedLink (new_replicator addrs)
unfolding new_replicator new_links
new_replicator-IsBounded [] = tt
new_replicator-IsBounded (addr ∷ addrs) = elim (Option-cases (split_host_port addr)) [
  | inl e ↦ rw (e, new_links) (new_replicator-IsBounded addrs)
  | inr (a, e) ↦
      rw (e, new_links)
        (record { bound = omega arith; idle = λ _. refl }, new_replicator-IsBounded addrs)
]

IsBounded-Step : {i : ℕ} {s t : Sync} → SyncStep i s t → Bounded s.leader → Bounded t.leader
unfolding after_greet after_cut after_turn after_cleanup
IsBounded-Step (set_step key value s hk hv) h = set-IsBounded key value s.leader h
IsBounded-Step (get_step key s) h = subst IsBoundedStore (sym (replicator-get key s.leader)) h
IsBounded-Step (del_step key s hk) h = del-IsBounded key s.leader h
IsBounded-Step (stop_step s) h = stop_links-IsBounded s.leader h
IsBounded-Step (check_step link s e at) h = h
IsBounded-Step (greet_step m s e ok) h = h
IsBounded-Step {i} (cut_step opened contents s e) h =
    snapshot-IsBounded (change_link i begin_streaming) opened contents s.leader
      (change-IsBounded i begin_streaming s.leader begin-IsBounded h)
IsBounded-Step (snapshot_step key value rest s e) h = h
IsBounded-Step {i} (turn_step link s e at) h =
    change-IsBounded i (λ l. (take_line l).0) s.leader take-IsBounded h
IsBounded-Step {i} (cleanup_step link s e at) h =
    change-IsBounded i (λ l. (cleanup l).0) s.leader cleanup-IsBounded h
IsBounded-Step (deliver_step m line rest s e) h = h
IsBounded-Step (lost_greet_step m s) h = h
IsBounded-Step (late_step m line rest s e) h = h
IsBounded-Step (reset_step s) h = h

run-IsBounded : {i : ℕ} {s t : Sync} → SyncRun i s t → Bounded s.leader → Bounded t.leader
run-IsBounded (here s) h = h
run-IsBounded (then_step run step) h = IsBounded-Step step (run-IsBounded run h)

link_at-IsBounded :
    (j : ℕ) (r : Replicator) (link : Link)
    → All IsBoundedLink r
    → link_at j r ≡ some link
    → IsBoundedLink link
unfolding link_at
link_at-IsBounded j [] link h e = absurd (ground arith)
link_at-IsBounded zero (x ∷ r) link h e = subst IsBoundedLink (some-injective x link e) h.0
link_at-IsBounded (suc j) (x ∷ r) link h e = link_at-IsBounded j r link h.1 e

-- However the leader writes, in memory or on disk, and however slow its followers are: the queue of
-- every link holds at most `max_queue` lines, and none while the link does not stream.
pub queue-le-max :
    (i j : ℕ) (addrs : List Bytes) (leader : Storage) (follower : World) (s : Sync) (link : Link)
    → SyncRun i (new_sync addrs leader follower) s
    → link_of j s.leader ≡ some link
    → IsBoundedLink link
unfolding new_sync attach_replicator
queue-le-max i j addrs leader follower s link run =
    let h = run-IsBounded run (new_replicator-IsBounded addrs) in
    elim (Option-cases s.leader.replicator) [
      | inl e ↦ rw e (λ z. absurd (ground arith))
      | inr (r, e) ↦ rw e (λ z. link_at-IsBounded j r link (subst IsBoundedStore e h) z)
    ]
