-- ===== src/Main.antt =====
-- src/main.cpp: the command line of the server. Its messages are left out: `none` is a start that is
-- refused. The number of the machine's threads is a parameter.
pub mod Roles
use redon.Prelude.{
  ℕ, zero, suc, ◌^◌, Bool, true, false, not, ◌&&◌, ◌||◌, Bytes, List, [], ◌∷◌, ◌++◌, Option, none,
  some, codes, bytes_eq, ltb, leb, ◌==◌, if◌then◌else◌, is_empty, length, take,
}
use redon.Text.{skip_space}
use redon.Text.Span.{span}
use redon.Text.Decimal.{is_digit, strip_minus}
use redon.Text.Integer.{ℤ, pos, negsuc, stol, stoi}
use redon.Server.Setup.{ServerConfig}

-- What stands behind the number: `consumed != text.size()` tests that it is empty.
unfoldable pub unread : Bytes → Bytes
unread text = (span is_digit (strip_minus (skip_space text)).1).1

-- The number in a text, all of it, between two bounds.
unfoldable pub within : ℕ → ℕ → Bytes → Option ℤ → Option ℕ
within low high text (some (pos n)) =
    if not (is_empty (unread text)) || ltb n low || ltb high n then none else some n
within low high text _ = none

unfoldable pub parse_port : Bytes → Option ℕ
parse_port text = within 1 65535 text (stoi text)

unfoldable pub parse_workers : Bytes → Option ℕ
parse_workers text = within 1 4096 text (stol text)

unfoldable pub parse_timeout : Bytes → Option ℕ
parse_timeout text = within 0 86400 text (stol text)

-- A capacity has no upper bound of its own: a `long long` is below this one.
unfoldable pub parse_capacity : Bytes → Option ℕ
parse_capacity text = within 0 (2 ^ 63) text (stol text)

unfoldable pub default_workers : ℕ → ℕ
default_workers hardware = if not (hardware == 0) then hardware else 8

unfoldable pub default_config : ℕ → ServerConfig
default_config hardware = record {
  host = codes "127.0.0.1";
  port = 6380;
  num_workers = default_workers hardware;
  wal_path = codes "redon.wal";
  idle_timeout_seconds = 300;
  capacity = 0;
  is_follower = false;
  follower_addrs = [];
  raft_peers = [];
  shard_addrs = [];
  disk_path = [];
  metrics_port = 0;
}

-- The options that take the next argument.
pub data Valued : Type 0 where
  follower raft shard disk metrics : Valued

pub data Argument : Type 0 where
  replica unknown positional : Argument
  valued : Valued → Argument

unfoldable pub argument_of : Bytes → Argument
argument_of arg =
    if bytes_eq arg (codes "--replica")
    then replica
    else if bytes_eq arg (codes "--follower")
    then valued follower
    else if bytes_eq arg (codes "--raft")
    then valued raft
    else if bytes_eq arg (codes "--shard")
    then valued shard
    else if bytes_eq arg (codes "--disk")
    then valued disk
    else if bytes_eq arg (codes "--metrics-port")
    then valued metrics
    else if bytes_eq (take 2 arg) (codes "--")
    then unknown
    else positional

unfoldable pub apply_valued : Valued → Bytes → ServerConfig → Option ServerConfig
apply_valued follower v c = some (record c { follower_addrs = c.follower_addrs ++ v ∷ [] })
apply_valued raft v c = some (record c { raft_peers = c.raft_peers ++ v ∷ [] })
apply_valued shard v c = some (record c { shard_addrs = c.shard_addrs ++ v ∷ [] })
apply_valued disk v c = some (record c { disk_path = v })
apply_valued metrics v c = elim (parse_port v) [
  | none ↦ none
  | some p ↦ some (record c { metrics_port = p })
]

-- The loop over the arguments, with the option that waits for its value.
unfoldable pub read_args :
    Option Valued → List Bytes → ServerConfig → List Bytes → Option (ServerConfig × List Bytes)
read_args none [] c positional_args = some (c, positional_args)
read_args (some kind) [] c positional_args = none
read_args none (arg ∷ args) c positional_args = elim (argument_of arg) [
  | replica ↦ read_args none args (record c { is_follower = true }) positional_args
  | unknown ↦ none
  | positional ↦ read_args none args c (positional_args ++ arg ∷ [])
  | valued kind ↦ read_args (some kind) args c positional_args
]
read_args (some kind) (v ∷ args) c positional_args = elim (apply_valued kind v c) [
  | none ↦ none
  | some c' ↦ read_args none args c' positional_args
]

unfoldable pub with_port : Bytes → ServerConfig → Option ServerConfig
with_port text c = elim (parse_port text) [ none ↦ none | some p ↦ some (record c { port = p }) ]

-- A single argument is the port.
unfoldable pub read_address : List Bytes → ServerConfig → Option ServerConfig
read_address [] c = some c
read_address (p ∷ []) c = with_port p c
read_address (h ∷ p ∷ more) c = with_port p (record c { host = h })

-- The arguments behind the address, each of which may be missing, and none behind the sixth.
unfoldable pub read_capacity : List Bytes → ServerConfig → Option ServerConfig
read_capacity [] c = some c
read_capacity (t ∷ []) c = elim (parse_capacity t) [
  | none ↦ none
  | some n ↦ some (record c { capacity = n })
]
read_capacity (t ∷ u ∷ more) c = none

unfoldable pub read_timeout : List Bytes → ServerConfig → Option ServerConfig
read_timeout [] c = some c
read_timeout (t ∷ more) c = elim (parse_timeout t) [
  | none ↦ none
  | some n ↦ read_capacity more (record c { idle_timeout_seconds = n })
]

unfoldable pub read_wal : List Bytes → ServerConfig → Option ServerConfig
read_wal [] c = some c
read_wal (t ∷ more) c = read_timeout more (record c { wal_path = t })

unfoldable pub read_workers : List Bytes → ServerConfig → Option ServerConfig
read_workers (h ∷ p ∷ t ∷ more) c = elim (parse_workers t) [
  | none ↦ none
  | some n ↦ read_wal more (record c { num_workers = n })
]
read_workers _ c = some c

-- The tests on the whole.
unfoldable pub is_coherent : ServerConfig → Bool
is_coherent c =
    let has_followers = not (is_empty c.follower_addrs) in
    let has_peers = not (is_empty c.raft_peers) in
    let is_router = not (is_empty c.shard_addrs) in
    not (c.is_follower && has_followers)
    && not (has_peers && (c.is_follower || has_followers))
    && not (is_router && (c.is_follower || has_followers || has_peers))
    && not (not (is_empty c.disk_path) && is_router)
    && not (not (c.metrics_port == 0) && c.metrics_port == c.port)

unfoldable pub read_config : ServerConfig × List Bytes → Option ServerConfig
read_config (c, positional_args) = elim (read_address positional_args c) [
  | none ↦ none
  | some c' ↦ elim (read_workers positional_args c') [
    | none ↦ none
    | some c'' ↦ if is_coherent c'' then some c'' else none
  ]
]

-- `argv` without the program's name, up to the start of the server.
unfoldable pub main : ℕ → List Bytes → Option ServerConfig
main hardware args = elim (read_args none args (default_config hardware) []) [
  | none ↦ none
  | some r ↦ read_config r
]
