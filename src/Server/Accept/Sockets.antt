-- ===== src/Server/Accept/Sockets.antt =====
-- Where the sockets of src/server.cpp are.
use mathlib.Core.Path.{subst}
use redon.Prelude.{
  ℕ, zero, suc, ◌+◌, ◌≡◌, refl, ap, sym, ◌∙◌, true, false, List, [], ◌∷◌, ◌++◌, some, arith, ◌==◌,
  if◌then◌else◌, Bool-cases, List-cases, inl, inr,
}
use redon.ThreadPool.{
  Worker, ready, exited, running, Run, new_run, new_workers, submit, next_task, stop_pool,
  worker_at, put_worker, after_submit, after_wake,
}
use redon.Metrics.{on_connect, on_disconnect}
use redon.Server.Accept.{
  Accepting, begin_accepting, accept_client, drop_client, begin_client, end_client, AcceptStep,
  accept_step, drop_step, begin_step, count_step, end_step, halt_step, AcceptSteps, none_yet,
  one_more,
}

-- How often a socket stands in a list.
abbrev pub times : ℕ → List ℕ → ℕ
times x [] = 0
times x (y ∷ l) = (if x == y then 1 else 0) + times x l

times-append : (x : ℕ) (l m : List ℕ) → times x (l ++ m) ≡ times x l + times x m
times-append x [] m = omega arith
times-append x (y ∷ l) m = omega (arith, times-append x l m)

-- How many workers serve a client, and how many serve this one.
abbrev pub busy : Worker ℕ → ℕ
busy (running client) = 1
busy _ = 0

abbrev pub serves : ℕ → Worker ℕ → ℕ
serves x (running client) = if x == client then 1 else 0
serves x _ = 0

abbrev pub total : (Worker ℕ → ℕ) → List (Worker ℕ) → ℕ
total weight [] = 0
total weight (w ∷ ws) = weight w + total weight ws

total-put_worker :
    (weight : Worker ℕ → ℕ) (i : ℕ) (old new : Worker ℕ) (ws : List (Worker ℕ))
    → worker_at i ws ≡ some old
    → total weight (put_worker i new ws) + weight old ≡ total weight ws + weight new
unfolding worker_at put_worker
total-put_worker weight i old new [] e = absurd (ground arith)
total-put_worker weight zero old new (w ∷ ws) e = ground arith
total-put_worker weight (suc i) old new (w ∷ ws) e =
    omega (arith, total-put_worker weight i old new ws e)

total-new_workers :
    (weight : Worker ℕ → ℕ) (n : ℕ) → weight ready ≡ 0 → total weight (new_workers n) ≡ 0
unfolding new_workers
total-new_workers weight zero h = refl
total-new_workers weight (suc n) h = omega (arith, total-new_workers weight n h)

-- The gauge is the number of clients being served, and each accepted socket is waiting, being served or
-- closed, once for each time that it was accepted.
pub record IsTidy (s : Accepting) : Type 0 where
  pub gauge : s.metrics.connected ≡ total busy s.run.workers
  pub placed :
      (x : ℕ)
      → times x s.accepted
        ≡ times x s.run.pool.tasks + total (serves x) s.run.workers + times x s.closed

begin_accepting-IsTidy : (num_workers : ℕ) → IsTidy (begin_accepting num_workers)
unfolding begin_accepting new_run
begin_accepting-IsTidy n = record {
  gauge = sym (total-new_workers busy (if n == 0 then 1 else n) refl);
  placed = λ x. omega (arith, total-new_workers (serves x) (if n == 0 then 1 else n) refl);
}

submitted :
    (client : ℕ) (r : Run ℕ)
    → (submit client r.pool).1 ≡ true
    → ((after_submit client r).pool.tasks ≡ r.pool.tasks ++ client ∷ [])
      × ((after_submit client r).workers ≡ r.workers)
unfolding after_submit submit
submitted client r e = ground arith

refused :
    (client : ℕ) (r : Run ℕ)
    → (submit client r.pool).1 ≡ false
    → ((after_submit client r).pool.tasks ≡ r.pool.tasks)
      × ((after_submit client r).workers ≡ r.workers)
unfolding after_submit submit
refused client r e = ground arith

accept-IsTidy : (client : ℕ) (s : Accepting) → IsTidy s → IsTidy (accept_client client s)
unfolding accept_client
accept-IsTidy client s h = elim (Bool-cases (submit client s.run.pool).1) [
  | inl e ↦
      let (tasks, workers) = submitted client s.run e in
      record {
        gauge = h.gauge ∙ ap (total busy) (sym workers);
        placed = λ x.
            let closed : times x
                  (if (submit client s.run.pool).1 then s.closed else s.closed ++ client ∷ [])
                ≡ times x s.closed =
              ground (arith, e) in
            omega (
              arith,
              h.placed x,
              closed,
              times-append x s.accepted (client ∷ []),
              ap (times x) tasks,
              times-append x s.run.pool.tasks (client ∷ []),
              ap (total (serves x)) workers,
            );
      }
  | inr e ↦
      let (tasks, workers) = refused client s.run e in
      record {
        gauge = h.gauge ∙ ap (total busy) (sym workers);
        placed = λ x.
            let closed : times x
                  (if (submit client s.run.pool).1 then s.closed else s.closed ++ client ∷ [])
                ≡ times x (s.closed ++ client ∷ []) =
              ground (arith, e) in
            omega (
              arith,
              h.placed x,
              closed,
              times-append x s.accepted (client ∷ []),
              times-append x s.closed (client ∷ []),
              ap (times x) tasks,
              ap (total (serves x)) workers,
            );
      }
]

drop-IsTidy : (client : ℕ) (s : Accepting) → IsTidy s → IsTidy (drop_client client s)
unfolding drop_client
drop-IsTidy client s h = record {
  gauge = h.gauge;
  placed = λ x. omega (
    arith,
    h.placed x,
    times-append x s.accepted (client ∷ []),
    times-append x s.closed (client ∷ []),
  );
}

end-IsTidy :
    (i client : ℕ) (s : Accepting)
    → worker_at i s.run.workers ≡ some (running client)
    → IsTidy s
    → IsTidy (end_client i client s)
unfolding end_client on_disconnect
end-IsTidy i client s at h = record {
  gauge = omega (arith, h.gauge, total-put_worker busy i (running client) ready s.run.workers at);
  placed = λ x. omega (
    arith,
    h.placed x,
    times-append x s.closed (client ∷ []),
    total-put_worker (serves x) i (running client) ready s.run.workers at,
  );
}

begin_task :
    (i client : ℕ) (rest : List ℕ) (s : Accepting)
    → s.run.pool.tasks ≡ client ∷ rest
    → begin_client i s ≡ record s {
      run = record s.run {
        pool = record s.run.pool { tasks = rest };
        workers = put_worker i (running client) s.run.workers;
        begun = s.run.begun ++ client ∷ [];
      };
      metrics = on_connect s.metrics;
    }
unfolding begin_client after_wake next_task
begin_task i client rest s e = ground (arith, e)

begin_sleep :
    (i : ℕ) (s : Accepting) → s.run.pool.tasks ≡ [] → s.run.pool.stop ≡ false → begin_client i s ≡ s
unfolding begin_client after_wake next_task
begin_sleep i s e stop = ground (arith, e, stop)

begin_exit :
    (i : ℕ) (s : Accepting)
    → s.run.pool.tasks ≡ []
    → s.run.pool.stop ≡ true
    → begin_client i s
      ≡ record s { run = record s.run { workers = put_worker i exited s.run.workers } }
unfolding begin_client after_wake next_task
begin_exit i s e stop = ground (arith, e, stop)

begin-IsTidy :
    (i : ℕ) (s : Accepting)
    → worker_at i s.run.workers ≡ some ready
    → IsTidy s
    → IsTidy (begin_client i s)
unfolding on_connect
begin-IsTidy i s at h = elim (List-cases s.run.pool.tasks) [
  | inl e ↦ elim (Bool-cases s.run.pool.stop) [
    | inl stop ↦ subst IsTidy (sym (begin_exit i s e stop)) (record {
      gauge = omega (arith, h.gauge, total-put_worker busy i ready exited s.run.workers at);
      placed = λ x.
          omega (arith, h.placed x, total-put_worker (serves x) i ready exited s.run.workers at);
    })
    | inr stop ↦ subst IsTidy (sym (begin_sleep i s e stop)) h
  ]
  | inr (client, rest, e) ↦ subst IsTidy (sym (begin_task i client rest s e)) (record {
    gauge = omega (arith, h.gauge, total-put_worker busy i ready (running client) s.run.workers at);
    placed = λ x. omega (
      arith,
      h.placed x,
      ap (times x) e,
      total-put_worker (serves x) i ready (running client) s.run.workers at,
    );
  })
]

halt-IsTidy :
    (s : Accepting)
    → IsTidy s
    → IsTidy (record s { run = record s.run { pool = stop_pool s.run.pool } })
unfolding stop_pool
halt-IsTidy s h = record { gauge = h.gauge; placed = h.placed }

IsTidy-Step : {s t : Accepting} → AcceptStep s t → IsTidy s → IsTidy t
IsTidy-Step (accept_step client s) h = accept-IsTidy client s h
IsTidy-Step (drop_step client s) h = drop-IsTidy client s h
IsTidy-Step (begin_step i s at) h = begin-IsTidy i s at h
IsTidy-Step (count_step m s same) h = record { gauge = same ∙ h.gauge; placed = h.placed }
IsTidy-Step (end_step i client s at) h = end-IsTidy i client s at h
IsTidy-Step (halt_step s) h = halt-IsTidy s h

kept : {s t : Accepting} → AcceptSteps s t → IsTidy s → IsTidy t
kept (none_yet s) h = h
kept (one_more steps step) h = IsTidy-Step step (kept steps h)

-- However connections come, are refused, fail and end: the gauge of clients is the number that the
-- workers serve, and each socket that `accept` returned waits in the queue, is served by a worker or was
-- closed, exactly one of these for each time that it was returned.
pub run-IsTidy :
    (num_workers : ℕ) (s : Accepting) → AcceptSteps (begin_accepting num_workers) s → IsTidy s
run-IsTidy num_workers s steps = kept steps (begin_accepting-IsTidy num_workers)
