-- ===== src/Replication/Onward.antt =====
-- The runs of `sender_loop` of src/replication.cpp in which a session goes on: nobody else acts, and
-- the connection does not end.
use redon.Prelude.{ℕ}
use redon.Replication.Sender.{
  Sync, SyncStep, set_step, get_step, del_step, stop_step, check_step, greet_step, cut_step,
  snapshot_step, turn_step, cleanup_step, deliver_step, lost_greet_step, late_step, reset_step,
  SyncRun, here, then_step,
}

-- The sender sends from its snapshot or takes its turn, or the follower runs a line that was sent.
abbrev pub IsOnward : {i : ℕ} {s t : Sync} → SyncStep i s t → Type 0
IsOnward (snapshot_step key value rest s e) = Unit
IsOnward (turn_step link s e at) = Unit
IsOnward (deliver_step m line rest s e) = Unit
IsOnward (set_step key value s hk hv) = ⊥
IsOnward (get_step key s) = ⊥
IsOnward (del_step key s hk) = ⊥
IsOnward (stop_step s) = ⊥
IsOnward (check_step link s e at) = ⊥
IsOnward (greet_step m s e ok) = ⊥
IsOnward (cut_step opened contents s e) = ⊥
IsOnward (cleanup_step link s e at) = ⊥
IsOnward (lost_greet_step m s) = ⊥
IsOnward (late_step m line rest s e) = ⊥
IsOnward (reset_step s) = ⊥

abbrev pub OnlyOnward : {i : ℕ} {s t : Sync} → SyncRun i s t → Type 0
OnlyOnward (here s) = Unit
OnlyOnward (then_step run step) = OnlyOnward run × IsOnward step

-- A run of such steps only.
pub record Onward (i : ℕ) (s t : Sync) : Type 0 where
  pub run : SyncRun i s t
  pub only : OnlyOnward run

pub Onward-here : {i : ℕ} (s : Sync) → Onward i s s
Onward-here s = record { run = here s; only = tt }

pub Onward-then :
    {i : ℕ} {s t u : Sync} → Onward i s t → (step : SyncStep i t u) → IsOnward step → Onward i s u
Onward-then o step on = record { run = then_step o.run step; only = (o.only, on) }

pub run_both : {i : ℕ} {s t u : Sync} → SyncRun i s t → SyncRun i t u → SyncRun i s u
run_both run (here t) = run
run_both run (then_step more last) = then_step (run_both run more) last

both_only :
    {i : ℕ} {s t u : Sync} (p : SyncRun i s t) (q : SyncRun i t u)
    → OnlyOnward p
    → OnlyOnward q
    → OnlyOnward (run_both p q)
unfolding run_both
both_only p (here t) a b = a
both_only p (then_step q last) a b = (both_only p q a b.0, b.1)

pub Onward-both : {i : ℕ} {s t u : Sync} → Onward i s t → Onward i t u → Onward i s u
Onward-both p q = record { run = run_both p.run q.run; only = both_only p.run q.run p.only q.only }

pub Onward-before :
    {i : ℕ} {s t u : Sync} (step : SyncStep i s t) → IsOnward step → Onward i t u → Onward i s u
Onward-before step on o = Onward-both (Onward-then (Onward-here _) step on) o
