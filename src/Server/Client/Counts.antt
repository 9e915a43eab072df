-- ===== src/Server/Client/Counts.antt =====
-- The counters of src/metrics.cpp and the buffer over a connection of src/server.cpp.
use mathlib.Core.Path.{subst}
use redon.Prelude.{
  ℕ, zero, suc, ◌+◌, ◌≤◌, ◌≡◌, sym, Bool, true, false, not, ◌&&◌, Bytes, List, [], ◌∷◌, ◌++◌,
  Option, arith, if◌then◌else◌, is_empty, length, codes, bytes_eq, bytes_eq_iff, Bool-cases,
  Option-cases, inl, inr,
}
use redon.Metrics.{Metrics, count_verb, on_command, on_get, on_latency}
use redon.Router.{Router}
use redon.Server.{verb_and_key}
use redon.Server.Client.{
  Server, Surroundings, Client, Served, answer_line, starts_with, count_get, count_line, serve_line,
  find_line, serve_lines, is_overlong, refuse_line, handle_client,
}

-- Hits and misses are of GETs, verbs and errors are of commands, and each command is timed.
pub record IsCounted (m : Metrics) : Type 0 where
  pub reads : m.get_hits + m.get_misses ≤ m.gets
  pub verbs : m.gets + m.sets + m.dels ≤ m.commands
  pub failures : m.errors ≤ m.commands
  pub timed : m.latency_count ≡ m.commands

-- A GET that is counted as one leaves room for its hit or miss.
on_get-IsCounted :
    (err hit : Bool) (elapsed : ℕ) (m : Metrics)
    → IsCounted m
    → IsCounted (on_get hit (on_command (codes "GET") err (on_latency elapsed m)))
unfolding on_get on_command count_verb on_latency bytes_eq
on_get-IsCounted err hit elapsed m h = ground (arith, h.reads, h.verbs, h.failures, h.timed)

on_command-IsCounted :
    (verb : Bytes) (err : Bool) (elapsed : ℕ) (m : Metrics)
    → IsCounted m
    → IsCounted (on_command verb err (on_latency elapsed m))
unfolding on_command count_verb on_latency
on_command-IsCounted verb err elapsed m h = ground (arith, h.reads, h.verbs, h.failures, h.timed)

count_get-IsCounted :
    (router : Option Router) (verb : Bytes) (err hit : Bool) (reply : Bytes) (elapsed : ℕ)
    (m : Metrics)
    → IsCounted m
    → IsCounted (count_get router verb err hit reply (on_command verb err (on_latency elapsed m)))
unfolding count_get
count_get-IsCounted router verb err hit reply elapsed m h =
    elim (Bool-cases (bytes_eq verb (codes "GET") && not err)) [
      | inl e ↦
          rw (e, (bytes_eq_iff verb (codes "GET")).0 (ground arith))
            (on_get-IsCounted err _ elapsed m h)
      | inr e ↦ rw e (on_command-IsCounted verb err elapsed m h)
    ]

count_line-IsCounted :
    (elapsed : ℕ) (was_link : Bool) (verb : Bytes) (r : Served) (m : Metrics)
    → IsCounted m
    → IsCounted (count_line elapsed was_link verb r m)
unfolding count_line
count_line-IsCounted elapsed was_link verb r m h =
    elim (Bool-cases (not (is_empty verb) && not was_link && not (starts_with (codes "__") verb))) [
      | inl e ↦ rw e (count_get-IsCounted r.server.router verb _ r.hit r.answer.reply elapsed m h)
      | inr e ↦ rw e h
    ]

answer_line-metrics :
    (env : Surroundings) (verb line : Bytes) (s : Server) (c : Client)
    → (answer_line env verb line s c).server.metrics ≡ s.metrics
unfolding answer_line
answer_line-metrics env verb line s c = ground arith

choose :
    {A : Type 0} (P : A → Type 0) (b d : Bool) (x y z : A)
    → P x
    → P y
    → P z
    → P (if b then x else if d then y else z)
choose P true d x y z hx hy hz = hx
choose P false true x y z hx hy hz = hy
choose P false false x y z hx hy hz = hz

serve_line-IsCounted :
    (env : Surroundings) (line : Bytes) (s : Server) (c : Client)
    → IsCounted s.metrics
    → IsCounted (serve_line env line s c).0.metrics
unfolding serve_line
serve_line-IsCounted env line s c h =
    let verb = (verb_and_key line).0 in
    let r = answer_line env verb line s c in
    let base =
      count_line-IsCounted (env.elapsed c.served) c.is_replica_link verb r r.server.metrics
        (subst IsCounted (sym (answer_line-metrics env verb line s c)) h) in
    choose (λ (t : Server × Client × Bool). IsCounted t.0.metrics) c.is_replica_link
      (env.deliver c.served) _ _ _ base base base

serve_lines-IsCounted :
    (env : Surroundings) (fuel : ℕ) (s : Server) (c : Client)
    → IsCounted s.metrics
    → IsCounted (serve_lines env fuel s c).0.metrics
unfolding serve_lines
serve_lines-IsCounted env zero s c h = h
serve_lines-IsCounted env (suc fuel) s c h = elim (Option-cases (find_line c.inbuf)) [
  | inl e ↦ rw (e, serve_lines) h
  | inr ((line, more), e) ↦
      let one = serve_line-IsCounted env line s (record c { inbuf = more }) h in
      let (s', c', go) = serve_line env line s (record c { inbuf = more }) in
      let rest = serve_lines-IsCounted env fuel s' c' one in
      rw (e, serve_lines) (either go (serve_lines env fuel s' c') (s', c', false) rest one)
]
  where
    either :
        (go : Bool) (x y : Server × Client × Bool)
        → IsCounted x.0.metrics
        → IsCounted y.0.metrics
        → IsCounted (if go then x else y).0.metrics
    either true x y hx hy = hx
    either false x y hx hy = hy

-- Over a whole connection, however its bytes arrive, the counters stay consistent: no more hits and
-- misses than GETs, no more GETs, SETs and DELs than commands, no more errors than commands, and as
-- many times measured as commands counted.
pub handle_client-IsCounted :
    (env : Surroundings) (chunks : List Bytes) (s : Server) (c : Client)
    → IsCounted s.metrics
    → IsCounted (handle_client env chunks s c).0.metrics
unfolding handle_client
handle_client-IsCounted env [] s c h = h
handle_client-IsCounted env (chunk ∷ chunks) s c h =
    let c' = record c { inbuf = c.inbuf ++ chunk } in
    let one = serve_lines-IsCounted env (length c'.inbuf) s c' h in
    let (s', c'', go) = serve_lines env (length c'.inbuf) s c' in
    let rest = handle_client-IsCounted env chunks s' c'' one in
    choose (λ (t : Server × Client). IsCounted t.0.metrics) (is_overlong c) go (s, refuse_line c)
      (handle_client env chunks s' c'') (s', c'') h rest one
