-- ===== src/Tests/Restarts.antt =====
-- A restart of the server of src/server.cpp at a concrete log.
use redon.Prelude.{
  ◌≡◌, refl, true, false, Bytes, List, [], ◌∷◌, ◌++◌, none, some, arith, codes, bytes_eq, take, All,
}
use redon.Assoc.{find, assign}
use redon.Output.{Output, write_flush, open_file, call}
use redon.Wal.{
  LogRecord, Wal, encode, replay_loop, new_wal, open_for_append, append_record, append_set,
  append_del,
}
use redon.Wal.Replay.{encode_all}
use redon.Storage
use redon.Storage.{Storage, new_storage, attach_wal}
use redon.Storage.Lru.Runs.{Command, set_command, del_command, run_command, run_commands}
use redon.Storage.Replay.{replay_into}
use redon.Metrics.{new_metrics}
use redon.Server.Client.{Server}
use redon.Server.Setup.{
  ServerConfig, setup_persistence, setup_replication, setup_raft, setup_sharding, setup_storage,
  set_up,
}
use redon.Server.Start.{IsLogged, IsLoggable}
use redon.Server.Restart.{Again, restart-answers}
use redon.Tests.Elections.{moment}

abbrev config : ServerConfig
config = record {
  host = codes "127.0.0.1";
  port = 6380;
  num_workers = 8;
  wal_path = codes "redon.wal";
  idle_timeout_seconds = 300;
  capacity = 0;
  is_follower = false;
  follower_addrs = [];
  raft_peers = [];
  shard_addrs = [];
  disk_path = [];
  metrics_port = 0;
}

-- The second write of the run reaches the disk with three bytes only.
abbrev empty_log : Output
empty_log = record { contents = []; outcomes = none ∷ some 3 ∷ []; calls = []; is_open = false }

abbrev no_disk : Output
no_disk = record { contents = []; outcomes = []; calls = []; is_open = false }

abbrev started : Output → Server
started file = record {
  is_follower = false;
  store = (setup_storage config no_disk file (new_storage 0)).0;
  raft = none;
  router = none;
  metrics = new_metrics;
}

abbrev commands : List Command
commands =
    set_command (codes "k") (codes "1")
    ∷ set_command (codes "j") (codes "2")
    ∷ del_command (codes "k")
    ∷ []

abbrev kept : Bytes
kept =
    encode (LogRecord.set (codes "k") (codes "1"))
    ++ take 3 (encode (LogRecord.set (codes "j") (codes "2")))

abbrev failed_log : Wal
failed_log = record {
  file = record { contents = kept; outcomes = []; calls = []; is_open = true };
  ok = false;
}

abbrev left_log : Output
left_log = record { contents = kept; outcomes = []; calls = []; is_open = false }

config-IsLogged : IsLogged config
unfolding bytes_eq
config-IsLogged = record { no_disk = refl; log = refl; unbounded = refl }

commands-IsLoggable : All IsLoggable commands
commands-IsLoggable = (
  ((omega arith, omega arith), (omega arith, omega arith)),
  (((omega arith, omega arith), (omega arith, omega arith)), (tt, tt)),
)

first_start : set_up config no_disk empty_log moment ≡ some (started empty_log)
unfolding set_up setup_storage setup_persistence bytes_eq open_for_append open_file new_wal
    attach_wal setup_replication setup_raft setup_sharding
first_start = refl

second_start : set_up config no_disk left_log moment ≡ some (started left_log)
unfolding set_up setup_storage setup_persistence bytes_eq open_for_append open_file new_wal
    attach_wal setup_replication setup_raft setup_sharding
second_start = refl

run_left : (run_commands commands (started empty_log).store).0.wal ≡ some failed_log
unfolding run_commands run_command Storage.del Storage.set setup_storage setup_persistence bytes_eq
    open_for_append open_file new_wal attach_wal replay_into Storage.set_replaying
    Storage.evict_loop replay_loop new_storage Storage.set_memory Storage.log_set append_set
    append_record write_flush call Storage.set_logged Storage.set_new Storage.insert_front
    Storage.replicate_set Storage.over_capacity Storage.del_memory Storage.log_del append_del find
    assign Storage.replicate_del
run_left = refl

restart-answers_example :
    Again (run_commands commands (started empty_log).store).0 failed_log (started left_log).store
unfolding encode_all
restart-answers_example =
    restart-answers config empty_log left_log no_disk no_disk moment moment (started empty_log)
      (started left_log) [] commands failed_log config-IsLogged tt refl first_start
      commands-IsLoggable run_left refl second_start
