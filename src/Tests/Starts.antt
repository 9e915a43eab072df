-- ===== src/Tests/Starts.antt =====
-- A start of the server by the command line of src/main.cpp.
use redon.Prelude.{◌≡◌, ◌≤◌, ◌⊎◌, refl, false, Bytes, List, [], ◌∷◌, none, some, codes, bytes_eq}
use redon.Output.{Output}
use redon.Text.{skip_space, is_space}
use redon.Text.Span.{span}
use redon.Text.Decimal.{is_digit, value}
use redon.Text.Integer.{parse_integer, integer_of, signed}
use redon.Storage.{new_storage}
use redon.Metrics.{new_metrics}
use redon.Server.Client.{Server}
use redon.Server.Setup.{
  ServerConfig, setup_persistence, setup_replication, setup_raft, setup_sharding, setup_storage,
  set_up,
}
use redon.Main.{
  main, read_args, argument_of, apply_valued, read_config, read_address, with_port, parse_port,
  within, unread, read_workers, parse_workers, read_wal, read_timeout, is_coherent, default_config,
  default_workers,
}
use redon.Main.Roles.{has, roles, main-one_role}
use redon.Tests.Elections.{moment}

abbrev arguments : List Bytes
arguments =
    codes "127.0.0.1"
    ∷ codes "--follower"
    ∷ codes "127.0.0.1:6381"
    ∷ codes "7000"
    ∷ codes "2"
    ∷ codes "none"
    ∷ []

abbrev leader : ServerConfig
leader = record {
  host = codes "127.0.0.1";
  port = 7000;
  num_workers = 2;
  wal_path = codes "none";
  idle_timeout_seconds = 300;
  capacity = 0;
  is_follower = false;
  follower_addrs = codes "127.0.0.1:6381" ∷ [];
  raft_peers = [];
  shard_addrs = [];
  disk_path = [];
  metrics_port = 0;
}

abbrev no_file : Output
no_file = record { contents = []; outcomes = []; calls = []; is_open = false }

abbrev leading : Server
leading = record {
  is_follower = false;
  store = setup_replication leader (new_storage 0);
  raft = none;
  router = none;
  metrics = new_metrics;
}

accepted : main 4 arguments ≡ some leader
unfolding main read_args argument_of bytes_eq apply_valued read_config read_address with_port
    parse_port within parse_integer integer_of span skip_space is_space is_digit signed value
    default_config default_workers is_coherent parse_workers read_timeout read_wal read_workers
    unread
accepted = refl

begun : set_up leader no_file no_file moment ≡ some leading
unfolding set_up setup_storage setup_persistence bytes_eq setup_raft setup_sharding
begun = refl

main-one_role_example : (roles leading ≤ 1) × ((has leading.router ≡ 0) ⊎ (leader.disk_path ≡ []))
main-one_role_example =
    main-one_role 4 arguments leader no_file no_file moment leading accepted begun
