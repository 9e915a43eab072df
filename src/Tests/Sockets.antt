-- ===== src/Tests/Sockets.antt =====
-- The accept loop of src/server.cpp at a concrete run.
use redon.Prelude.{refl}
use redon.ThreadPool.{
  new_run, new_workers, submit, next_task, worker_at, put_worker, after_submit, after_wake,
}
use redon.Server.Accept.{
  Accepting, max_queued, begin_accepting, accept_client, begin_client, end_client, accept_step,
  begin_step, end_step, AcceptSteps, none_yet, one_more,
}
use redon.Server.Accept.Sockets.{IsTidy, run-IsTidy}

-- Two connections for one worker, which serves the first and takes the second.
abbrev waiting : Accepting
waiting = accept_client 8 (accept_client 7 (begin_accepting 1))

abbrev served : Accepting
served = begin_client 0 (end_client 0 7 (begin_client 0 waiting))

run_served : AcceptSteps (begin_accepting 1) served
unfolding begin_accepting accept_client begin_client worker_at after_submit new_run new_workers
    after_wake next_task submit max_queued put_worker end_client
run_served =
    let start : AcceptSteps (begin_accepting 1) (begin_accepting 1) =
      none_yet (begin_accepting 1) in
    let first = one_more start (accept_step 7 (begin_accepting 1)) in
    let second = one_more first (accept_step 8 (accept_client 7 (begin_accepting 1))) in
    let begun = one_more second (begin_step 0 waiting refl) in
    let ended = one_more begun (end_step 0 7 (begin_client 0 waiting) refl) in
    one_more ended (begin_step 0 (end_client 0 7 (begin_client 0 waiting)) refl)

run-IsTidy_example : IsTidy served
run-IsTidy_example = run-IsTidy 1 served run_served
