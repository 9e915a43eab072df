-- ===== src/Tests/Connections.antt =====
-- The thread pool of src/thread_pool.cpp and a connection of src/server.cpp at concrete inputs.
use redon.Prelude.{ℕ, ◌≡◌, refl, true, false, [], ◌∷◌, none, some, arith, codes, bytes_eq}
use redon.ThreadPool.{
  Run, ready, new_workers, new_run, worker_at, submit, after_submit, after_wake, submit_step,
  wake_step, start, later,
}
use redon.ThreadPool.Order.{IsOrderly, run-IsOrderly}
use redon.Metrics.{new_metrics}
use redon.Storage.{new_storage}
use redon.Text.{skip_space, is_space, span_token}
use redon.Text.Span.{span}
use redon.Command.{
  to_upper, upper, skip_mark, execute_line, trim, trim_end, execute_verb, next_token,
  execute_client, not_leader, run_verb, linked, is_write, run_get,
}
use redon.Server.{verb_and_key}
use redon.Server.Client.{
  serve_line, answer_line, Server, Surroundings, Client, find_line, serve_lines, handle_client,
}
use redon.Server.Client.Counts.{IsCounted, handle_client-IsCounted}
use redon.Server.Client.Framing.{Drained, serve_lines-Drained}
use redon.Tests.Elections.{moment}

-- Two workers and a queue of one; a task is taken and begun.
abbrev first_run : Run ℕ
first_run = after_submit 7 (new_run 2 1)

one_ready : worker_at 0 first_run.workers ≡ some ready
unfolding after_submit submit new_run new_workers worker_at
one_ready = refl

run-IsOrderly_example : IsOrderly (after_wake 0 first_run)
run-IsOrderly_example = run-IsOrderly 2 1 (after_wake 0 first_run) (
    later (later (start (new_run 2 1)) (submit_step 7 (new_run 2 1)))
      (wake_step 0 first_run one_ready))

abbrev env : Surroundings
env = record {
  dial = λ host port. none;
  info = λ m keys. codes "keys";
  moment = λ n. moment;
  elapsed = λ n. 1000;
  deliver = λ n. true;
}

abbrev server : Server
server = record {
  is_follower = false;
  store = new_storage 2;
  raft = none;
  router = none;
  metrics = new_metrics;
}

abbrev client : Client
client = record { inbuf = codes "GE"; is_replica_link = false; served = 0; sent = [] }

counted : IsCounted new_metrics
counted = record { reads = omega arith; verbs = omega arith; failures = omega arith; timed = refl }

handle_client-IsCounted_example :
    IsCounted (handle_client env (codes "T k\nPI" ∷ codes "NG\n" ∷ []) server client).0.metrics
handle_client-IsCounted_example =
    handle_client-IsCounted env (codes "T k\nPI" ∷ codes "NG\n" ∷ []) server client counted

-- Two commands and the beginning of a third.
abbrev busy : Client
busy = record { inbuf = codes "PING\nGET\nGE"; is_replica_link = false; served = 0; sent = [] }

going : (serve_lines env 11 server busy).2 ≡ true
unfolding serve_lines find_line serve_line answer_line bytes_eq verb_and_key to_upper span_token
    span skip_mark skip_space is_space upper execute_line trim trim_end execute_verb next_token
    execute_client not_leader run_verb linked is_write run_get
going = refl

serve_lines-Drained_example :
    Drained env server busy (serve_lines env 11 server busy).0 (serve_lines env 11 server busy).1
serve_lines-Drained_example = serve_lines-Drained env 11 server busy (omega arith) going
