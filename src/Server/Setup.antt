-- ===== src/Server/Setup.antt =====
-- The set-up of src/server.cpp, before the accept loop: the store over its disk engine or its log, the
-- links to the followers, the node of the cluster and the router. Left out are the messages and the
-- metrics endpoint, which may fail without harm.
use redon.Prelude.{
  ℕ, Bool, true, false, not, ◌||◌, Bytes, List, ◌∷◌, ◌++◌, Option, none, some, codes, bytes_eq,
  if◌then◌else◌, is_empty,
}
use redon.Text.Decimal.{to_string}
use redon.Output.{Output}
use redon.Wal.{new_wal, open_for_append}
use redon.Storage.{Storage, new_storage, open_disk_backend, attach_wal, attach_replicator}
use redon.Storage.Replay.{replay_into}
use redon.Replication.{new_replicator}
use redon.Raft.{RaftNode, Moment, new_node}
use redon.Router.{Router}
use redon.Metrics.{new_metrics}
use redon.Server.Client.{Server}

pub record ServerConfig : Type 0 where
  pub host : Bytes
  pub port : ℕ
  pub num_workers : ℕ
  pub wal_path : Bytes
  pub idle_timeout_seconds : ℕ
  pub capacity : ℕ
  pub is_follower : Bool
  pub follower_addrs : List Bytes
  pub raft_peers : List Bytes
  pub shard_addrs : List Bytes
  pub disk_path : Bytes
  pub metrics_port : ℕ

abbrev pub persistence_off : Bytes → Bool
persistence_off wal_path =
    is_empty wal_path || bytes_eq wal_path (codes "none") || bytes_eq wal_path (codes "-")

-- `file` is what the path of the log holds.
unfoldable pub setup_persistence : ServerConfig → Output → Storage → Storage × Bool
setup_persistence config file store =
    if persistence_off config.wal_path
    then (store, true)
    else (let (store', replayed) = replay_into file.contents store in
        let (wal, opened) = open_for_append (new_wal file) in
        if not opened then (store', false) else (attach_wal (some wal) store', true))

unfoldable pub setup_replication : ServerConfig → Storage → Storage
setup_replication config store =
    if config.is_follower
    then store
    else if is_empty config.follower_addrs
    then store
    else attach_replicator (some (new_replicator config.follower_addrs)) store

-- The period of the heartbeats is the default of `RaftNode::Config`.
unfoldable pub setup_raft : ServerConfig → Moment → Option RaftNode
setup_raft config m =
    if is_empty config.raft_peers
    then none
    else some (
        new_node
          (record {
            self_id = config.host ++ (b':' ∷ to_string config.port);
            peers = config.raft_peers;
            heartbeat_ms = 100;
          })
          m)

unfoldable pub setup_sharding : ServerConfig → Option Router
setup_sharding config = if is_empty config.shard_addrs then none else some config.shard_addrs

unfoldable pub setup_storage : ServerConfig → Output → Output → Storage → Storage × Bool
setup_storage config disk_file wal_file store =
    if not (is_empty config.disk_path)
    then open_disk_backend disk_file store
    else setup_persistence config wal_file store

-- The first part of `run`: a server that is ready for clients, or none if the start has failed.
unfoldable pub set_up : ServerConfig → Output → Output → Moment → Option Server
set_up config disk_file wal_file m =
    let (store, opened) = setup_storage config disk_file wal_file (new_storage config.capacity) in
    if not opened
    then none
    else some (record {
      is_follower = config.is_follower;
      store = setup_replication config store;
      raft = setup_raft config m;
      router = setup_sharding config;
      metrics = new_metrics;
    })
