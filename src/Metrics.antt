-- ===== src/Metrics.antt =====
-- src/metrics.h and src/metrics.cpp: the counters. They are 64-bit and only grow, so a counter that
-- wraps around is out of reach and they are natural numbers here; an atomic addition is one step.
use redon.Prelude.{ℕ, ◌+◌, ◌-◌, Bool, Bytes, ◌||◌, codes, bytes_eq, if◌then◌else◌}

pub record Metrics : Type 0 where
  pub commands : ℕ
  pub gets : ℕ
  pub sets : ℕ
  pub dels : ℕ
  pub get_hits : ℕ
  pub get_misses : ℕ
  pub errors : ℕ
  pub connections_total : ℕ
  pub connected : ℕ
  pub latency_ns_total : ℕ
  pub latency_count : ℕ

abbrev pub new_metrics : Metrics
new_metrics = record {
  commands = 0;
  gets = 0;
  sets = 0;
  dels = 0;
  get_hits = 0;
  get_misses = 0;
  errors = 0;
  connections_total = 0;
  connected = 0;
  latency_ns_total = 0;
  latency_count = 0;
}

unfoldable pub on_connect : Metrics → Metrics
on_connect m = record m { connections_total = m.connections_total + 1; connected = m.connected + 1 }

-- A connection that ends was counted when it began.
unfoldable pub on_disconnect : Metrics → Metrics
on_disconnect m = record m { connected = m.connected - 1 }

unfoldable pub count_verb : Bytes → Metrics → Metrics
count_verb verb m =
    if bytes_eq verb (codes "GET")
    then record m { gets = m.gets + 1 }
    else if bytes_eq verb (codes "SET")
    then record m { sets = m.sets + 1 }
    else if bytes_eq verb (codes "DEL") || bytes_eq verb (codes "DELETE")
    then record m { dels = m.dels + 1 }
    else m

unfoldable pub on_command : Bytes → Bool → Metrics → Metrics
on_command verb is_error m =
    count_verb verb
      (record m { commands = m.commands + 1; errors = if is_error then m.errors + 1 else m.errors })

unfoldable pub on_get : Bool → Metrics → Metrics
on_get hit m =
    if hit
    then record m { get_hits = m.get_hits + 1 }
    else record m { get_misses = m.get_misses + 1 }

unfoldable pub on_latency : ℕ → Metrics → Metrics
on_latency ns m = record m {
  latency_ns_total = m.latency_ns_total + ns;
  latency_count = m.latency_count + 1;
}
