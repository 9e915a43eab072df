-- ===== src/Command/Guards.antt =====
-- The guards of src/command.cpp: who may change the store.
use redon.Prelude.{
  ◌≡◌, ◌≢◌, ◌⊎◌, inl, inr, refl, Bool, true, false, not, ◌||◌, Bytes, [], arith, is_empty,
  Bool-cases, some, codes, bytes_eq, bytes_eq_iff,
}
use redon.Storage
use redon.Storage.{Storage}
use redon.Raft.{RaftNode, Moment, is_leader}
use redon.Command.{
  World, next_token, trim, to_upper, replsync, raft_rpc, is_write, run_get, run_verb, linked,
  not_leader, execute_client, execute_verb, execute_line,
}

-- The verb of a line.
abbrev pub verb_of : Bytes → Bytes
verb_of line = to_upper (next_token (trim line)).0

-- The store is as it was, but for the order in which its entries were used.
abbrev pub OnlyRead : World → World → Type 0
OnlyRead w w' = (w'.store ≡ w.store) ⊎ ((key : Bytes) × (w'.store ≡ (Storage.get key w.store).0))

run_get-OnlyRead : (key rest : Bytes) (w : World) → OnlyRead w (run_get key rest w).0
unfolding run_get
run_get-OnlyRead key rest w = elim (Bool-cases (is_empty key || not (is_empty rest))) [
  | inl e ↦ inl (ground arith)
  | inr e ↦ inr (key, ground arith)
]

run_verb-OnlyRead :
    (verb key rest : Bytes) (w : World)
    → is_write verb ≡ false
    → OnlyRead w (run_verb verb key rest w).0
unfolding run_verb is_write bytes_eq
run_verb-OnlyRead verb key rest w h = elim (Bool-cases (bytes_eq verb (codes "GET"))) [
  | inl e ↦ rw ((bytes_eq_iff verb (codes "GET")).0 e) (run_get-OnlyRead key rest w)
  | inr e ↦ inl (ground arith)
]

-- A write is refused, anything else reads.
execute_client-replica :
    (verb key rest : Bytes) (w : World)
    → linked w.replica_link ≡ false
    → OnlyRead w (execute_client true verb key rest w).0
unfolding execute_client
execute_client-replica verb key rest w link = elim (Bool-cases (is_write verb)) [
  | inl e ↦ inl (ground arith)
  | inr e ↦ rw (link, e) (run_verb-OnlyRead verb key rest w e)
]

execute_client-outvoted :
    (verb key rest : Bytes) (w : World) (n : RaftNode)
    → w.raft ≡ some n
    → is_leader n ≡ false
    → OnlyRead w (execute_client false verb key rest w).0
unfolding execute_client not_leader
execute_client-outvoted verb key rest w n member follows = elim (Bool-cases (is_write verb)) [
  | inl e ↦ inl (ground arith)
  | inr e ↦ rw e (run_verb-OnlyRead verb key rest w e)
]

raft_rpc-OnlyRead :
    (verb key rest : Bytes) (m : Moment) (w : World) → OnlyRead w (raft_rpc verb key rest m w).0
unfolding raft_rpc
raft_rpc-OnlyRead verb key rest m w = inl (ground arith)

-- Either a line is empty, or it runs its verb.
execute_line-cases :
    (follower : Bool) (m : Moment) (line : Bytes) (w : World)
    → (execute_line follower m line w ≡ (w, record { should_close = false; reply = [] }))
      ⊎ ((key : Bytes) × (rest : Bytes) × (execute_line follower m line w
            ≡ execute_verb follower m (verb_of line) key rest w))
unfolding execute_line
execute_line-cases follower m line w = elim (Bool-cases (is_empty (trim line))) [
  | inl e ↦ inl (rw e refl)
  | inr e ↦ inr (
    (next_token (next_token (trim line)).1).0,
    (next_token (next_token (trim line)).1).1,
    rw e refl,
  )
]

replsync-leader : (w : World) → OnlyRead w (replsync false w).0
unfolding replsync
replsync-leader w = inl refl

execute_verb-OnlyRead :
    (follower : Bool) (m : Moment) (verb key rest : Bytes) (w : World)
    → (bytes_eq verb (codes "__REPLSYNC__") ≡ true → OnlyRead w (replsync follower w).0)
    → OnlyRead w (execute_client follower verb key rest w).0
    → OnlyRead w (execute_verb follower m verb key rest w).0
unfolding execute_verb
execute_verb-OnlyRead follower m verb key rest w sync client =
    elim (Bool-cases (bytes_eq verb (codes "__REPLSYNC__"))) [
      | inl e ↦ rw e (sync e)
      | inr e ↦
          elim (Bool-cases
            (bytes_eq verb (codes "__RAFT_VOTE__") || bytes_eq verb (codes "__RAFT_APPEND__"))) [
              | inl e' ↦ rw (e, e') (raft_rpc-OnlyRead verb key rest m w)
              | inr e' ↦ elim (Bool-cases (bytes_eq verb (codes "ROLE"))) [
                | inl e'' ↦ rw (e, e', e'') (inl refl)
                | inr e'' ↦ rw (e, e', e'') client
              ]
            ]
    ]

-- On a read-only replica no line of a client's connection changes the store, but for the handshake of
-- the leader: each line at most moves the entry that it reads to the front.
pub replica-OnlyRead :
    (m : Moment) (line : Bytes) (w : World)
    → linked w.replica_link ≡ false
    → verb_of line ≢ codes "__REPLSYNC__"
    → OnlyRead w (execute_line true m line w).0
replica-OnlyRead m line w link other = elim (execute_line-cases true m line w) [
  | inl e ↦ rw e (inl refl)
  | inr (key, rest, e) ↦ rw e (
      execute_verb-OnlyRead true m (verb_of line) key rest w
        (λ sync. absurd (other ((bytes_eq_iff (verb_of line) (codes "__REPLSYNC__")).0 sync)))
        (execute_client-replica (verb_of line) key rest w link))
]

-- On a node of a cluster that is not its leader no line at all changes the store, but for the order of
-- its entries: writes go to the leader.
pub outvoted-OnlyRead :
    (m : Moment) (line : Bytes) (w : World) (n : RaftNode)
    → w.raft ≡ some n
    → is_leader n ≡ false
    → OnlyRead w (execute_line false m line w).0
outvoted-OnlyRead m line w n member follows = elim (execute_line-cases false m line w) [
  | inl e ↦ rw e (inl refl)
  | inr (key, rest, e) ↦ rw e (
      execute_verb-OnlyRead false m (verb_of line) key rest w (λ _. replsync-leader w)
        (execute_client-outvoted (verb_of line) key rest w n member follows))
]
