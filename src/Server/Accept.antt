-- ===== src/Server/Accept.antt =====
-- The accept loop of src/server.cpp with the pool of src/thread_pool.cpp: who owns a client's socket. A
-- socket is a number, and the tasks of the pool are the sockets that they capture.
pub mod Sockets
use redon.Prelude.{ℕ, ◌≡◌, Bool, true, false, List, [], ◌∷◌, ◌++◌, some, ltb, if◌then◌else◌, ◌*◌}
use redon.ThreadPool.{
  Worker, ready, running, Found, sleep, leave, task, Run, new_run, submit, next_task, stop_pool,
  worker_at, put_worker, after_submit, after_wake,
}
use redon.Metrics.{Metrics, new_metrics, on_connect, on_disconnect}

-- `accepted` has the sockets that `accept` returned, `closed` the calls of `close_socket`, in order.
pub record Accepting : Type 0 where
  pub run : Run ℕ
  pub metrics : Metrics
  pub accepted : List ℕ
  pub closed : List ℕ

unfoldable pub max_queued : ℕ → ℕ
max_queued num_workers = let n = num_workers * 16 in if ltb n 256 then 256 else n

unfoldable pub begin_accepting : ℕ → Accepting
begin_accepting num_workers = record {
  run = new_run num_workers (max_queued num_workers);
  metrics = new_metrics;
  accepted = [];
  closed = [];
}

-- One round of the loop. The guard closes the socket unless the pool has taken it.
unfoldable pub accept_client : ℕ → Accepting → Accepting
accept_client client s =
    let submitted = (submit client s.run.pool).1 in
    record {
      run = after_submit client s.run;
      metrics = s.metrics;
      accepted = s.accepted ++ client ∷ [];
      closed = if submitted then s.closed else s.closed ++ client ∷ [];
    }

-- A round in which the submission throws.
unfoldable pub drop_client : ℕ → Accepting → Accepting
drop_client client s = record s {
  accepted = s.accepted ++ client ∷ [];
  closed = s.closed ++ client ∷ [];
}

-- A worker takes a task: the scope counts the connection.
unfoldable pub begin_client : ℕ → Accepting → Accepting
begin_client i s = record s {
  run = after_wake i s.run;
  metrics = elim (next_task s.run.pool).1 [
    | sleep ↦ s.metrics
    | leave ↦ s.metrics
    | task client ↦ on_connect s.metrics
  ];
}

-- The scope ends, with the task or with an exception.
unfoldable pub end_client : ℕ → ℕ → Accepting → Accepting
end_client i client s = record s {
  run = record s.run { workers = put_worker i ready s.run.workers };
  metrics = on_disconnect s.metrics;
  closed = s.closed ++ client ∷ [];
}

-- The steps of the accepting thread and of the workers; what a client does in between may count
-- commands, but no connections.
pub data AcceptStep : Accepting → Accepting → Type 0 where
  accept_step : (client : ℕ) (s : Accepting) → AcceptStep s (accept_client client s)
  drop_step : (client : ℕ) (s : Accepting) → AcceptStep s (drop_client client s)
  begin_step :
      (i : ℕ) (s : Accepting)
      → worker_at i s.run.workers ≡ some ready
      → AcceptStep s (begin_client i s)
  count_step :
      (m : Metrics) (s : Accepting)
      → m.connected ≡ s.metrics.connected
      → AcceptStep s (record s { metrics = m })
  end_step :
      (i client : ℕ) (s : Accepting)
      → worker_at i s.run.workers ≡ some (running client)
      → AcceptStep s (end_client i client s)
  halt_step :
      (s : Accepting)
      → AcceptStep s (record s { run = record s.run { pool = stop_pool s.run.pool } })

pub data AcceptSteps : Accepting → Accepting → Type 0 where
  none_yet : (s : Accepting) → AcceptSteps s s
  one_more : {s t u : Accepting} → AcceptSteps s t → AcceptStep t u → AcceptSteps s u
