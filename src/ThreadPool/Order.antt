-- ===== src/ThreadPool/Order.antt =====
-- The order, the bound and the shutdown of the pool of src/thread_pool.cpp.
use mathlib.Core.Path.{subst}
use redon.Prelude.{
  ℕ, zero, suc, ◌≤◌, ◌<◌, ◌≡◌, ◌⊎◌, cons-ne-nil, refl, ap, sym, ◌∙◌, Bool, true, false, ◌||◌, List,
  [], ◌∷◌, ◌++◌, append_assoc, arith, ◌==◌, if◌then◌else◌, length, length-append, Bool-cases, inl,
  inr,
}
use redon.ThreadPool.{
  Worker, ready, exited, running, submit, next_task, stop_pool, Run, new_workers, new_run,
  put_worker, after_submit, after_wake, Step, submit_step, wake_step, finish_step, stop_step, Steps,
  start, later,
}

abbrev pub is_exited : {A : Type 0} → Worker A → Bool
is_exited exited = true
is_exited _ = false

-- Whether a worker has left.
unfoldable pub some_exited : {A : Type 0} → List (Worker A) → Bool
some_exited [] = false
some_exited (w ∷ ws) = is_exited w || some_exited ws

pub record IsOrderly {A : Type 0} (r : Run A) : Type 0 where
  pub order : r.begun ++ r.pool.tasks ≡ r.taken
  pub within : 0 < r.pool.max_queue_size → length r.pool.tasks ≤ r.pool.max_queue_size
  pub drained : some_exited r.workers ≡ true → (r.pool.stop ≡ true) × (r.pool.tasks ≡ [])

new_workers_lem : (A : Type 0) (n : ℕ) → some_exited {A = A} (new_workers n) ≡ false
unfolding new_workers some_exited
new_workers_lem A zero = refl
new_workers_lem A (suc n) = new_workers_lem A n

module _ {A : Type 0} where
  List-cases : (l : List A) → (l ≡ []) ⊎ ((a : A) × ((rest : List A) × (l ≡ a ∷ rest)))
  List-cases [] = inl refl
  List-cases (a ∷ rest) = inr (a, (rest, refl))

  some_exited-put_worker :
      (i : ℕ) (w : Worker A) (ws : List (Worker A))
      → is_exited w ≡ false
      → some_exited (put_worker i w ws) ≡ true
      → some_exited ws ≡ true
  unfolding some_exited put_worker
  some_exited-put_worker i w [] e h = h
  some_exited-put_worker zero w (v ∷ ws) e h = ground arith
  some_exited-put_worker (suc i) w (v ∷ ws) e h = ground (arith, some_exited-put_worker i w ws)

  submit-IsOrderly : (a : A) (r : Run A) → IsOrderly r → IsOrderly (after_submit a r)
  unfolding after_submit submit
  submit-IsOrderly a r h =
      ground
        (arith, append_assoc r.begun r.pool.tasks (a ∷ []), length-append r.pool.tasks (a ∷ []))

  wake_sleep : (i : ℕ) (r : Run A) → r.pool.tasks ≡ [] → r.pool.stop ≡ false → after_wake i r ≡ r
  unfolding after_wake next_task
  wake_sleep i r e live = ground arith

  wake_leave :
      (i : ℕ) (r : Run A)
      → r.pool.tasks ≡ []
      → r.pool.stop ≡ true
      → after_wake i r ≡ record r { workers = put_worker i exited r.workers }
  unfolding after_wake next_task
  wake_leave i r e stopped = ground arith

  wake_task :
      (i : ℕ) (r : Run A) (a : A) (rest : List A)
      → r.pool.tasks ≡ a ∷ rest
      → after_wake i r ≡ record r {
        pool = record r.pool { tasks = rest };
        workers = put_worker i (running a) r.workers;
        begun = r.begun ++ a ∷ [];
      }
  unfolding after_wake next_task
  wake_task i r a rest e = ground arith

  wake-IsOrderly : (i : ℕ) (r : Run A) → IsOrderly r → IsOrderly (after_wake i r)
  wake-IsOrderly i r h = elim (List-cases r.pool.tasks) [
    | inl e ↦ elim (Bool-cases r.pool.stop) [
      | inl stopped ↦
          subst IsOrderly (sym (wake_leave i r e stopped))
            (record { order = h.order; within = h.within; drained = λ _. (stopped, e) })
      | inr live ↦ subst IsOrderly (sym (wake_sleep i r e live)) h
    ]
    | inr (a, (rest, e)) ↦ subst IsOrderly (sym (wake_task i r a rest e)) (record {
      order = append_assoc r.begun (a ∷ []) rest ∙ ap (λ l. r.begun ++ l) (sym e) ∙ h.order;
      within = λ pos. omega (arith, h.within pos, ap length e);
      drained = λ x. absurd (
          cons-ne-nil a rest
            (sym e ∙ (h.drained (some_exited-put_worker i (running a) r.workers refl x)).1));
    })
  ]

  IsOrderly-Step : {r s : Run A} → Step r s → IsOrderly r → IsOrderly s
  unfolding stop_pool
  IsOrderly-Step (submit_step a r) h = submit-IsOrderly a r h
  IsOrderly-Step (wake_step i r e) h = wake-IsOrderly i r h
  IsOrderly-Step (finish_step i a r e) h = record {
    order = h.order;
    within = h.within;
    drained = λ x. h.drained (some_exited-put_worker i ready r.workers refl x);
  }
  IsOrderly-Step (stop_step r) h = record {
    order = h.order;
    within = h.within;
    drained = λ x. (refl, (h.drained x).1);
  }

  new_run-IsOrderly : (n max : ℕ) → IsOrderly (new_run {A = A} n max)
  unfolding new_run
  new_run-IsOrderly n max = record {
    order = refl;
    within = λ pos. omega arith;
    drained = λ x. absurd (ground (arith, new_workers_lem A (if n == 0 then 1 else n)));
  }

  -- Whatever the threads do, in any order, from a fresh pool on: the tasks that the workers have begun
  -- and those in the queue are, in that order, the tasks that `submit` took; a bounded queue stays
  -- within its bound; and once a worker has left, the pool is stopped and its queue is empty, so that
  -- every task taken has been begun.
  pub run-IsOrderly : (n max : ℕ) (r : Run A) → Steps (new_run n max) r → IsOrderly r
  run-IsOrderly n max r steps = go steps (new_run-IsOrderly n max)
    where
      go : {q s : Run A} → Steps q s → IsOrderly q → IsOrderly s
      go (start q) h = h
      go (later steps step) h = IsOrderly-Step step (go steps h)
