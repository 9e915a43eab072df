-- ===== src/Tests/Cache.antt =====
-- The cache of src/storage.cpp at concrete inputs.
use redon.Prelude.{◌≡◌, refl, true, false, List, [], ◌∷◌, none, some, arith, length, bytes_eq}
use redon.Output.{write_flush}
use redon.Text.Decimal.{to_string}
use redon.Wal.{Wal, encode, append_set, append_del}
use redon.Assoc.{find, assign, erase}
use redon.Storage.{
  Storage, new_storage, set, get, del, evict_loop, log_set, log_del, set_memory, set_logged,
  set_new, evict_lru_locked, back, pop_back, drop_back, replicate_del, replicate_set, insert_front,
  over_capacity,
}
use redon.Storage.Valid.{IsValid}
use redon.Storage.Keeps.{
  Call, set_call, get_call, del_call, clear_call, replaying_call, run_calls, run_calls-IsValid,
  new_storage-IsValid,
}
use redon.Storage.Lru.{touch, wal_ok}
use redon.Storage.Lru.Evict.{live_test}
use redon.Storage.Lru.Refines.{IsBounded, trim, view, set-touch}
use redon.Storage.Lru.Reads.{used, Deleted, del_logged, get-used, del-Deleted, set_unlogged}
use redon.Storage.Lru.Runs.{
  Command, set_command, get_command, del_command, run_commands, lru_commands, run_commands-lru,
}

-- Three keys into a cache of two, a read of the older one and a delete.
abbrev some_commands : List Command
some_commands =
    set_command (1 ∷ []) (10 ∷ [])
    ∷ set_command (2 ∷ []) (20 ∷ [])
    ∷ get_command (1 ∷ [])
    ∷ set_command (3 ∷ []) (30 ∷ [])
    ∷ get_command (2 ∷ [])
    ∷ del_command (1 ∷ [])
    ∷ []

run_commands-lru_example :
    (view (run_commands some_commands (new_storage 2)).0 ≡ (lru_commands 2 some_commands []).0)
    × ((run_commands some_commands (new_storage 2)).1 ≡ (lru_commands 2 some_commands []).1)
run_commands-lru_example = run_commands-lru 2 some_commands

abbrev some_calls : List Call
some_calls =
    set_call (1 ∷ []) (10 ∷ [])
    ∷ set_call (2 ∷ []) (20 ∷ [])
    ∷ get_call (1 ∷ [])
    ∷ replaying_call false
    ∷ set_call (3 ∷ []) (30 ∷ [])
    ∷ del_call (1 ∷ [])
    ∷ clear_call
    ∷ []

run_calls-IsValid_example : IsValid (run_calls some_calls (new_storage 2))
run_calls-IsValid_example = run_calls-IsValid some_calls (new_storage 2) (new_storage-IsValid 2)

-- A cache of two with a log that takes every line.
abbrev open_log : Wal
open_log = record {
  file = record { contents = []; outcomes = []; calls = []; is_open = true };
  ok = true;
}

abbrev full_calls : List Call
full_calls = set_call (1 ∷ []) (10 ∷ []) ∷ set_call (2 ∷ []) (20 ∷ []) ∷ []

abbrev logging : Storage
logging = record (new_storage 2) { wal = some open_log }

abbrev full : Storage
full = run_calls full_calls logging

full-IsValid : IsValid full
full-IsValid = run_calls-IsValid full_calls logging (new_storage-IsValid 2)

full_lem :
    (full.disk ≡ none)
    × (full.capacity ≡ 2)
    × (length full.items ≡ 2)
    × (length full.index ≡ 2)
    × (full.replaying ≡ false)
unfolding run_calls new_storage set set_memory log_set append_set write_flush encode to_string
    set_logged find set_new evict_loop evict_lru_locked log_del append_del back pop_back drop_back
    replicate_del replicate_set insert_front assign erase over_capacity bytes_eq
full_lem = (refl, refl, refl, refl, refl)

full-IsBounded : IsBounded full
full-IsBounded live pos = omega (arith, full_lem.1, full_lem.2)

insert_lem :
    ((set (3 ∷ []) (30 ∷ []) full).1 ≡ true) × (wal_ok (set (3 ∷ []) (30 ∷ []) full).0.wal ≡ true)
unfolding run_calls new_storage set set_memory log_set append_set write_flush encode to_string
    set_logged find set_new evict_loop evict_lru_locked log_del append_del back pop_back drop_back
    replicate_del replicate_set insert_front assign erase over_capacity bytes_eq
insert_lem = (refl, refl)

set-touch_example :
    view (set (3 ∷ []) (30 ∷ []) full).0 ≡ trim full (touch (3 ∷ []) (30 ∷ []) (view full))
set-touch_example =
    set-touch (3 ∷ []) (30 ∷ []) full full-IsValid full-IsBounded full_lem.0 insert_lem.0
      insert_lem.1

get-used_example :
    ((get (1 ∷ []) full).1 ≡ find (1 ∷ []) (view full))
    × (view (get (1 ∷ []) full).0 ≡ used (1 ∷ []) (find (1 ∷ []) (view full)) (view full))
get-used_example = get-used (1 ∷ []) full full-IsValid full_lem.0

del-Deleted_example :
    Deleted
      (1 ∷ [])
      (del_logged (find (1 ∷ []) (view full)) (log_del (1 ∷ []) full).1)
      full
      (del (1 ∷ []) full)
del-Deleted_example = del-Deleted (1 ∷ []) full full-IsValid full_lem.0

-- A log whose next flush fails.
abbrev failing : Storage
failing = record full {
  wal = some (record open_log { file = record open_log.file { outcomes = some 3 ∷ [] } });
}

set_unlogged_example :
    ((set (1 ∷ []) (11 ∷ []) failing).1 ≡ (log_set (1 ∷ []) (11 ∷ []) failing).1)
    × ((set (1 ∷ []) (11 ∷ []) failing).1 ≡ false
        → view (set (1 ∷ []) (11 ∷ []) failing).0 ≡ view failing)
set_unlogged_example = set_unlogged (1 ∷ []) (11 ∷ []) failing full_lem.0

-- The same entries in a cache of one.
abbrev shrunk : Storage
shrunk = record full { capacity = 1 }

shrunk_lem : wal_ok (evict_loop live_test true 2 shrunk).wal ≡ true
unfolding run_calls new_storage set set_memory log_set append_set write_flush encode to_string
    set_logged find set_new evict_loop evict_lru_locked log_del append_del back pop_back drop_back
    replicate_del replicate_set insert_front assign erase over_capacity bytes_eq
shrunk_lem = refl
