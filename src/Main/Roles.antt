-- ===== src/Main/Roles.antt =====
-- The command line of src/main.cpp and the set-up of src/server.cpp: the roles of a server.
use mathlib.Core.Path.{subst}
use mathlib.Core.Option.{some-injective}
use redon.Prelude.{
  ℕ, ◌+◌, ◌≤◌, ◌≡◌, ◌⊎◌, refl, ap, sym, ◌∙◌, true, ◌||◌, Bytes, List, [], Option, none, some, arith,
  if◌then◌else◌, is_empty, Bool-cases, Option-cases, inl, inr,
}
use redon.Output.{Output}
use redon.Storage.{Storage, new_storage, attach_wal, attach_replicator}
use redon.Storage.Unlinked.{IsUnlinked, replay_into-IsUnlinked, open_disk-IsUnlinked}
use redon.Metrics.{new_metrics}
use redon.Raft.{Moment}
use redon.Server.Client.{Server}
use redon.Server.Setup.{
  ServerConfig, setup_persistence, setup_replication, setup_raft, setup_sharding, setup_storage,
  set_up,
}
use redon.Main.{
  read_args, read_address, read_workers, read_config, is_coherent, main, default_config,
}

-- What a server is besides a plain store.
abbrev pub has {ℓ} : {A : Type ℓ} → Option A → ℕ
has none = 0
has (some x) = 1

abbrev pub roles : Server → ℕ
roles s = (if s.is_follower then 1 else 0) + has s.store.replicator + has s.raft + has s.router

read_config-coherent :
    (r : ServerConfig × List Bytes) (c : ServerConfig)
    → read_config r ≡ some c
    → is_coherent c ≡ true
unfolding read_config
read_config-coherent r c = elim (Option-cases (read_address r.1 r.0)) [
  | inl e ↦ rw (e, read_config) (λ z. absurd (ground arith))
  | inr (c', e) ↦ elim (Option-cases (read_workers r.1 c')) [
    | inl e' ↦ rw (e, e', read_config) (λ z. absurd (ground arith))
    | inr (c'', e') ↦ elim (Bool-cases (is_coherent c'')) [
      | inl good ↦
          rw (e, e', read_config, good) (λ z. ap is_coherent (sym (some-injective c'' c z)) ∙ good)
      | inr bad ↦ rw (e, e', read_config, bad) (λ z. absurd (ground arith))
    ]
  ]
]

main-coherent :
    (hardware : ℕ) (args : List Bytes) (c : ServerConfig)
    → main hardware args ≡ some c
    → is_coherent c ≡ true
unfolding main
main-coherent hardware args c =
    elim (Option-cases (read_args none args (default_config hardware) [])) [
      | inl e ↦ rw (e, main) (λ z. absurd (ground arith))
      | inr (r, e) ↦ rw (e, main) (read_config-coherent r c)
    ]

storage-IsUnlinked :
    (config : ServerConfig) (disk_file wal_file : Output) (s : Storage)
    → IsUnlinked s
    → IsUnlinked (setup_storage config disk_file wal_file s).0
unfolding setup_storage setup_persistence attach_wal
storage-IsUnlinked config disk_file wal_file s h =
    ground (arith, replay_into-IsUnlinked wal_file.contents s h, open_disk-IsUnlinked disk_file s h)

new-IsUnlinked : (capacity : ℕ) → IsUnlinked (new_storage capacity)
unfolding new_storage
new-IsUnlinked capacity = refl

-- The parts of a server that has started.
record Parts (c : ServerConfig) (s : Server) : Type 0 where
  role : s.is_follower ≡ c.is_follower
  links : has s.store.replicator ≤ (if c.is_follower || is_empty c.follower_addrs then 0 else 1)
  member : has s.raft ≡ (if is_empty c.raft_peers then 0 else 1)
  router : has s.router ≡ (if is_empty c.shard_addrs then 0 else 1)

has-setup_replication :
    (c : ServerConfig) (s : Storage)
    → IsUnlinked s
    → has (setup_replication c s).replicator
      ≤ (if c.is_follower || is_empty c.follower_addrs then 0 else 1)
unfolding setup_replication attach_replicator
has-setup_replication c s h = ground (arith, ap has h)

has-setup_raft :
    (c : ServerConfig) (m : Moment)
    → has (setup_raft c m) ≡ (if is_empty c.raft_peers then 0 else 1)
unfolding setup_raft
has-setup_raft c m = ground arith

has-setup_sharding :
    (c : ServerConfig) → has (setup_sharding c) ≡ (if is_empty c.shard_addrs then 0 else 1)
unfolding setup_sharding
has-setup_sharding c = ground arith

set_up-Parts :
    (c : ServerConfig) (disk_file wal_file : Output) (m : Moment) (s : Server)
    → set_up c disk_file wal_file m ≡ some s
    → Parts c s
unfolding set_up
set_up-Parts c disk_file wal_file m s =
    let store = (setup_storage c disk_file wal_file (new_storage c.capacity)).0 in
    let parts : Parts c (record {
      is_follower = c.is_follower;
      store = setup_replication c store;
      raft = setup_raft c m;
      router = setup_sharding c;
      metrics = new_metrics;
    }) =
      record {
        role = refl;
        links = has-setup_replication c store (
            storage-IsUnlinked c disk_file wal_file (new_storage c.capacity)
              (new-IsUnlinked c.capacity));
        member = has-setup_raft c m;
        router = has-setup_sharding c;
      } in
    elim (Bool-cases (setup_storage c disk_file wal_file (new_storage c.capacity)).1) [
      | inl opened ↦ rw opened (λ e. subst (Parts c) (some-injective _ s e) parts)
      | inr failed ↦ rw failed (λ e. absurd (ground arith))
    ]

-- A server that the command line has started is at most one of these: a follower, a leader with
-- followers, a member of a cluster, a router. A router has no disk engine.
pub main-one_role :
    (hardware : ℕ) (args : List Bytes) (c : ServerConfig) (disk_file wal_file : Output) (m : Moment)
    (s : Server)
    → main hardware args ≡ some c
    → set_up c disk_file wal_file m ≡ some s
    → (roles s ≤ 1) × ((has s.router ≡ 0) ⊎ (c.disk_path ≡ []))
unfolding is_coherent
main-one_role hardware args c disk_file wal_file m s accepted started =
    let coherent = main-coherent hardware args c accepted in
    let parts = set_up-Parts c disk_file wal_file m s started in
    (
      ground (arith, coherent, parts.role, parts.links, parts.member, parts.router),
      elim (Bool-cases (is_empty c.shard_addrs)) [
        | inl no_router ↦ inl (ground (arith, parts.router, no_router))
        | inr router ↦ inr (ground (arith, coherent, router))
      ],
    )
