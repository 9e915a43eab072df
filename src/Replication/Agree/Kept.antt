-- ===== src/Replication/Agree/Kept.antt =====
-- The steps of the leader, of the sender and of the follower of src/replication.cpp, together.
use redon.Prelude.{ℕ}
use redon.Replication.Stream.{set-Changes, get-Changes, del-Changes}
use redon.Replication.Sender.{
  Sync, SyncStep, set_step, get_step, del_step, stop_step, check_step, greet_step, cut_step,
  snapshot_step, turn_step, cleanup_step, deliver_step, late_step, lost_greet_step, reset_step,
}
use redon.Replication.Agree.{IsSynced}
use redon.Command.Lines.{disk-set}
use redon.Storage
use redon.Storage.{Storage, get_memory, del_memory, log_del, replicate_del}
use redon.Storage.{Node}
use redon.Storage.Keeps.{set-IsValid, get-IsValid, del-IsValid}
use redon.Replication.Agree.Leader.{changed, stopped, disk-get, disk-del}
use redon.Replication.Agree.Handshake.{checked, greeted_by}
use redon.Replication.Agree.Cut.{cut}
use redon.Replication.Agree.Wire.{snapshot_sent, delivered, run_late, run_lost, reset}
use redon.Replication.Agree.Turn.{turn_taken}
use redon.Replication.Agree.Leave.{cleaned}

-- Every step of the leader, of the sender and of the follower keeps the invariant.
pub IsSynced-Step : {i : ℕ} {s t : Sync} → SyncStep i s t → IsSynced i s → IsSynced i t
IsSynced-Step {i} (set_step key value s hk hv) h =
    changed i s h (Storage.set key value s.leader).0 (set-IsValid key value s.leader h.valid)
      (disk-set key value s.leader h.memory)
      (set-Changes key value s.leader h.valid h.memory h.sendable hk hv)
IsSynced-Step {i} (get_step key s) h =
    changed i s h (Storage.get key s.leader).0 (get-IsValid key s.leader h.valid)
      (disk-get key s.leader h.memory) (get-Changes key s.leader h.valid h.memory)
IsSynced-Step {i} (del_step key s hk) h =
    changed i s h (Storage.del key s.leader).0 (del-IsValid key s.leader h.valid)
      (disk-del key s.leader h.memory) (del-Changes key s.leader h.valid h.memory hk)
IsSynced-Step {i} (stop_step s) h = stopped i s h
IsSynced-Step {i} (check_step link s e at) h = checked i s h link.stop
IsSynced-Step {i} (greet_step m s e ok) h = greeted_by i s h m ok
IsSynced-Step {i} (cut_step opened contents s e) h = cut i s h opened contents e
IsSynced-Step {i} (snapshot_step key value rest s e) h = snapshot_sent i s h key value rest e
IsSynced-Step {i} (turn_step link s e at) h = turn_taken i s h link e at
IsSynced-Step {i} (cleanup_step link s e at) h = cleaned i s h link
IsSynced-Step {i} (deliver_step m line rest s e) h = delivered i s h m line rest e
IsSynced-Step {i} (late_step m line rest s e) h = run_late i s h m line rest e
IsSynced-Step {i} (lost_greet_step m s) h = run_lost i s h m
IsSynced-Step {i} (reset_step s) h = reset i s h
