-- ===== src/Command.antt =====
-- src/command.cpp: one line of the protocol, parsed and run. What the line changes by its pointers
-- (the store, the link flag, the Raft node, the hit flag) is one record; a null pointer is `none`.
pub mod Links
pub mod Parse
pub mod Guards
pub mod Lines
use redon.Prelude.{
  ℕ, zero, suc, ◌+◌, ◌-◌, Bool, true, false, not, ◌&&◌, ◌||◌, Bytes, List, [], ◌∷◌, ◌++◌, map,
  Option, none, some, codes, bytes_eq, leb, ◌==◌, if◌then◌else◌, is_empty,
}
use redon.Text.{is_space, skip_space, span_token}
use redon.Text.Integer.{stol}
use redon.Text.Decimal.{to_string}
use redon.Storage
use redon.Storage.{Storage}
use redon.Raft.{
  RaftNode, Moment, handle_request_vote, handle_append_entries, status_line, is_leader,
}

pub record World : Type 0 where
  pub store : Storage
  pub replica_link : Option Bool
  pub raft : Option RaftNode
  pub get_hit : Option Bool

pub record Answer : Type 0 where
  pub should_close : Bool
  pub reply : Bytes

abbrev pub say : Bytes → Answer
say reply = record { should_close = false; reply = reply }

-- The mark that an editor may put before its text, with the whitespace behind it.
unfoldable pub skip_mark : Bytes → Bytes
skip_mark (a ∷ b ∷ c ∷ s) =
    if a == 0xef && b == 0xbb && c == 0xbf then skip_space s else a ∷ b ∷ c ∷ s
skip_mark s = s

-- Without the whitespace at its end.
unfoldable pub trim_end : Bytes → Bytes
trim_end [] = []
trim_end (c ∷ s) = let rest = trim_end s in if is_empty rest && is_space c then [] else c ∷ rest

unfoldable pub trim : Bytes → Bytes
trim s = trim_end (skip_mark (skip_space s))

-- `std::toupper` of the C locale.
unfoldable pub upper : ℕ → ℕ
upper c = if leb b'a' c && leb c b'z' then c - 32 else c

unfoldable pub to_upper : Bytes → Bytes
to_upper s = map upper s

-- The token at the front, and what follows the whitespace behind it.
unfoldable pub next_token : Bytes → Bytes × Bytes
next_token s = let (token, rest) = span_token s in (token, skip_space rest)

unfoldable pub wrong_args : Bytes → Bytes
wrong_args verb = codes "ERR wrong number of arguments for '" ++ verb ++ codes "' command"

abbrev pub not_persisted : Bytes
not_persisted = codes "ERR write failed: data not persisted"

-- `__REPLSYNC__`: the flag of the link is set before the store is cleared.
unfoldable pub replsync : Bool → World → World × Answer
replsync follower w =
    if not follower
    then (w, say (codes "ERR __REPLSYNC__ is only valid on a read-only replica"))
    else elim w.replica_link [
      | some true ↦ (w, say (codes "ERR replication sync already in progress on this connection"))
      | some false ↦ clear_store (record w { replica_link = some true })
      | none ↦ clear_store w
    ]
  where
    clear_store : World → World × Answer
    clear_store w =
        let (store, ok) = Storage.clear w.store in
        (
          record w { store = store },
          say (if not ok then codes "ERR replica storage failed to reset for sync" else codes "OK"),
        )

unfoldable pub raft_rpc : Bytes → Bytes → Bytes → Moment → World → World × Answer
raft_rpc verb key rest m w = elim w.raft [
  | none ↦ (w, say (codes "ERR this node is not part of a Raft cluster"))
  | some n ↦ elim (stol key) [
    | none ↦ (w, say (codes "ERR malformed Raft RPC"))
    | some term ↦
        let (n', reply) =
          if bytes_eq verb (codes "__RAFT_VOTE__")
          then handle_request_vote term rest m n
          else handle_append_entries term rest m n in
        (record w { raft = some n' }, say reply)
  ]
]

unfoldable pub role_reply : Option RaftNode → Bytes
role_reply none = codes "standalone (not a Raft cluster)"
role_reply (some n) = status_line n

unfoldable pub is_write : Bytes → Bool
is_write verb =
    bytes_eq verb (codes "SET") || bytes_eq verb (codes "DEL") || bytes_eq verb (codes "DELETE")

unfoldable pub run_set : Bytes → Bytes → World → World × Answer
run_set key rest w =
    if is_empty key || is_empty rest
    then (w, say (wrong_args (codes "set")))
    else let (store, ok) = Storage.set key rest w.store in
      (record w { store = store }, say (if not ok then not_persisted else codes "OK"))

abbrev pub mark_hit : Bool → Option Bool → Option Bool
mark_hit hit none = none
mark_hit hit (some old) = some hit

unfoldable pub run_get : Bytes → Bytes → World → World × Answer
run_get key rest w =
    if is_empty key || not (is_empty rest)
    then (w, say (wrong_args (codes "get")))
    else let (store, found) = Storage.get key w.store in
      elim found [
        | some value ↦ (record w { store = store; get_hit = mark_hit true w.get_hit }, say value)
        | none ↦
            (record w { store = store; get_hit = mark_hit false w.get_hit }, say (codes "(nil)"))
      ]

unfoldable pub run_del : Bytes → Bytes → World → World × Answer
run_del key rest w =
    if is_empty key || not (is_empty rest)
    then (w, say (wrong_args (codes "del")))
    else let (store, removed, durable) = Storage.del key w.store in
      (
        record w { store = store },
        say (if not durable then not_persisted else codes "(integer) " ++ to_string removed),
      )

unfoldable pub run_exists : Bytes → Bytes → World → Bytes
run_exists key rest w =
    if is_empty key || not (is_empty rest)
    then wrong_args (codes "exists")
    else codes "(integer) " ++ to_string (if Storage.exists key w.store then 1 else 0)

-- The commands of a client, once the guards are passed.
unfoldable pub run_verb : Bytes → Bytes → Bytes → World → World × Answer
run_verb verb key rest w =
    if bytes_eq verb (codes "SET")
    then run_set key rest w
    else if bytes_eq verb (codes "GET")
    then run_get key rest w
    else if bytes_eq verb (codes "DEL") || bytes_eq verb (codes "DELETE")
    then run_del key rest w
    else if bytes_eq verb (codes "EXISTS")
    then (w, say (run_exists key rest w))
    else if bytes_eq verb (codes "PING")
    then (
      w,
      say (if is_empty key && is_empty rest then codes "PONG" else wrong_args (codes "ping")),
    )
    else if bytes_eq verb (codes "QUIT") || bytes_eq verb (codes "EXIT")
    then (
      w,
      if is_empty key && is_empty rest
          then record { should_close = true; reply = codes "OK" }
          else say (wrong_args (codes "quit")),
    )
    else (w, say (codes "ERR unknown command '" ++ verb ++ codes "'"))

unfoldable pub linked : Option Bool → Bool
linked none = false
linked (some b) = b

-- A cluster has another leader, or none that is known.
unfoldable pub not_leader : Option RaftNode → Option Bytes
not_leader none = none
not_leader (some n) =
    if is_leader n
    then none
    else some (
        codes "ERR NOTLEADER " ++ (if is_empty n.leader_id then codes "(unknown)" else n.leader_id))

unfoldable pub execute_client : Bool → Bytes → Bytes → Bytes → World → World × Answer
execute_client follower verb key rest w =
    if follower && not (linked w.replica_link) && is_write verb
    then (w, say (codes "ERR READONLY this node is a read-only replica"))
    else if not (is_write verb)
    then run_verb verb key rest w
    else elim (not_leader w.raft) [
      | some refusal ↦ (w, say refusal)
      | none ↦ run_verb verb key rest w
    ]

unfoldable pub execute_verb : Bool → Moment → Bytes → Bytes → Bytes → World → World × Answer
execute_verb follower m verb key rest w =
    if bytes_eq verb (codes "__REPLSYNC__")
    then replsync follower w
    else if bytes_eq verb (codes "__RAFT_VOTE__") || bytes_eq verb (codes "__RAFT_APPEND__")
    then raft_rpc verb key rest m w
    else if bytes_eq verb (codes "ROLE")
    then (w, say (role_reply w.raft))
    else execute_client follower verb key rest w

unfoldable pub execute_line : Bool → Moment → Bytes → World → World × Answer
execute_line follower m line w =
    let s = trim line in
    let (word, after) = next_token s in
    let (key, rest) = next_token after in
    if is_empty s then (w, say []) else execute_verb follower m (to_upper word) key rest w
