-- ===== src/ThreadPool.antt =====
-- src/thread_pool.h and src/thread_pool.cpp: the bounded queue and its workers. Each region that holds
-- the mutex is one function; a task is any value, and its body is the environment's.
pub mod Order
use redon.Prelude.{
  ℕ, zero, suc, ◌≡◌, Bool, true, false, not, ◌&&◌, List, [], ◌∷◌, ◌++◌, Option, none, some, leb,
  ◌==◌, if◌then◌else◌, length,
}

pub record ThreadPool (A : Type 0) : Type 0 where
  pub tasks : List A
  pub stop : Bool
  pub max_queue_size : ℕ

-- What a worker thread is doing.
pub data Worker (A : Type 0) : Type 0 where
  ready exited : Worker A
  running : A → Worker A

-- What a worker finds when it holds the lock.
pub data Found (A : Type 0) : Type 0 where
  sleep leave : Found A
  task : A → Found A

module _ {A : Type 0} where
  unfoldable pub submit : A → ThreadPool A → ThreadPool A × Bool
  submit a p =
      if p.stop
      then (p, false)
      else if not (p.max_queue_size == 0) && leb p.max_queue_size (length p.tasks)
      then (p, false)
      else (record p { tasks = p.tasks ++ a ∷ [] }, true)

  -- The locked region of `worker_loop`: the wait, and the front of the queue.
  unfoldable pub next_task : ThreadPool A → ThreadPool A × Found A
  next_task p = elim p.tasks [
    | [] ↦ (p, if p.stop then leave else sleep)
    | a ∷ rest ↦ (record p { tasks = rest }, task a)
  ]

  -- The destructor's flag.
  unfoldable pub stop_pool : ThreadPool A → ThreadPool A
  stop_pool p = record p { stop = true }

-- The pool with its workers, the tasks that `submit` took and those that a worker has begun, in order.
pub record Run (A : Type 0) : Type 0 where
  pub pool : ThreadPool A
  pub workers : List (Worker A)
  pub taken : List A
  pub begun : List A

unfoldable pub new_workers : {A : Type 0} → ℕ → List (Worker A)
new_workers zero = []
new_workers (suc n) = ready ∷ new_workers n

-- The constructor: at least one worker.
unfoldable pub new_run : {A : Type 0} → ℕ → ℕ → Run A
new_run num_threads max_queue_size = record {
  pool = record { tasks = []; stop = false; max_queue_size = max_queue_size };
  workers = new_workers (if num_threads == 0 then 1 else num_threads);
  taken = [];
  begun = [];
}

unfoldable pub worker_at : {A : Type 0} → ℕ → List (Worker A) → Option (Worker A)
worker_at i [] = none
worker_at zero (w ∷ ws) = some w
worker_at (suc i) (w ∷ ws) = worker_at i ws

unfoldable pub put_worker : {A : Type 0} → ℕ → Worker A → List (Worker A) → List (Worker A)
put_worker i new [] = []
put_worker zero new (w ∷ ws) = new ∷ ws
put_worker (suc i) new (w ∷ ws) = w ∷ put_worker i new ws

unfoldable pub after_submit : {A : Type 0} → A → Run A → Run A
after_submit a r =
    let (p, ok) = submit a r.pool in
    record r { pool = p; taken = if ok then r.taken ++ a ∷ [] else r.taken }

-- A ready worker holds the lock.
unfoldable pub after_wake : {A : Type 0} → ℕ → Run A → Run A
after_wake i r =
    let (p, found) = next_task r.pool in
    elim found [
      | sleep ↦ r
      | leave ↦ record r { workers = put_worker i exited r.workers }
      | task a ↦ record r {
        pool = p;
        workers = put_worker i (running a) r.workers;
        begun = r.begun ++ a ∷ [];
      }
    ]

-- One step of the threads. A task that throws ends like one that returns.
pub data Step {A : Type 0} : Run A → Run A → Type 0 where
  submit_step : (a : A) (r : Run A) → Step r (after_submit a r)
  wake_step : (i : ℕ) (r : Run A) → worker_at i r.workers ≡ some ready → Step r (after_wake i r)
  finish_step :
      (i : ℕ) (a : A) (r : Run A)
      → worker_at i r.workers ≡ some (running a)
      → Step r (record r { workers = put_worker i ready r.workers })
  stop_step : (r : Run A) → Step r (record r { pool = stop_pool r.pool })

pub data Steps {A : Type 0} : Run A → Run A → Type 0 where
  start : (r : Run A) → Steps r r
  later : {q r s : Run A} → Steps q r → Step r s → Steps q s
