-- ===== src/Replication/Sender.antt =====
-- `sender_loop` of src/replication.cpp beside the store of the leader and the follower it feeds: every
-- locked region and every line that is sent or run is a step, in any order. A connection that is over
-- may leave lines that the follower has not run yet; another of its threads may run them later.
use redon.Prelude.{
  ℕ, ◌+◌, ◌≡◌, Bool, true, false, Bytes, List, [], ◌∷◌, ◌++◌, Option, none, some, codes,
  if◌then◌else◌,
}
use redon.Storage
use redon.Storage.{Storage}
use redon.Storage.Snapshot.{snapshot_locked}
use redon.Replication.{
  Link, set_line, begin_streaming, Turn, leave, ping, send, take_line, cleanup, stop_all, link_at,
  update_link,
}
use redon.Replication.Lines.{ping_line, follow}
use redon.Raft.{Moment}
use redon.Command.{World, execute_line}
use redon.Command.Parse.{IsWord, IsValue}

-- Where the sender stands: before its test of `stop`, connecting, past the handshake, sending what is
-- left of the snapshot and then the queue, leaving the connection, and at its end.
pub data Phase : Type 0 where
  idle connecting greeted leaving ended : Phase
  sending : List (Bytes × Bytes) → Phase

-- `wire` has the lines that the follower has not run yet, `stale` those of connections that are over;
-- `late` counts the stale lines that the follower has run since the last handshake.
pub record Sync : Type 0 where
  pub leader : Storage
  pub phase : Phase
  pub wire : List Bytes
  pub stale : List Bytes
  pub late : ℕ
  pub follower : World

-- The link of this sender among the leader's.
abbrev pub link_of : ℕ → Storage → Option Link
link_of i s = elim s.replicator [ none ↦ none | some r ↦ link_at i r ]

unfoldable pub change_link : ℕ → (Link → Link) → Storage → Storage
change_link i f s = elim s.replicator [
  | none ↦ s
  | some r ↦ record s { replicator = some (update_link i f r) }
]

unfoldable pub stop_links : Storage → Storage
stop_links s = elim s.replicator [ none ↦ s | some r ↦ record s { replicator = some (stop_all r) } ]

abbrev pub replsync_text : Bytes
replsync_text = codes "__REPLSYNC__"

-- The follower's side of the handshake, on a new connection.
abbrev pub fresh_link : World → World
fresh_link w = record w { replica_link = some false; get_hit = some false }

unfoldable pub after_greet : Moment → Sync → Sync
after_greet m s = record s {
  phase = greeted;
  wire = [];
  late = 0;
  follower = follow m replsync_text (fresh_link s.follower);
}

-- The cut: the snapshot is taken and the link streams, under the lock of the store.
unfoldable pub after_cut : ℕ → Bool → Bytes → Sync → Sync
after_cut i opened contents s =
    let (leader, snapshot) =
      snapshot_locked (change_link i begin_streaming) opened contents s.leader in
    record s { leader = leader; phase = sending snapshot }

-- A turn of the streaming loop.
abbrev pub turn_phase : Turn → Phase
turn_phase leave = leaving
turn_phase ping = sending []
turn_phase (send line) = sending []

abbrev pub turn_lines : Turn → List Bytes
turn_lines leave = []
turn_lines ping = ping_line ∷ []
turn_lines (send line) = line ∷ []

unfoldable pub after_turn : ℕ → Link → Sync → Sync
after_turn i link s =
    let turn = (take_line link).1 in
    record s {
      leader = change_link i (λ l. (take_line l).0) s.leader;
      phase = turn_phase turn;
      wire = s.wire ++ turn_lines turn;
    }

-- The cleanup: the socket is closed, and its lines are no longer those of a live connection.
unfoldable pub after_cleanup : ℕ → Link → Sync → Sync
after_cleanup i link s = record s {
  leader = change_link i (λ l. (cleanup l).0) s.leader;
  phase = if (cleanup link).1 then ended else idle;
  wire = [];
  stale = s.stale ++ s.wire;
}

abbrev pub connected : Phase → Bool
connected idle = false
connected ended = false
connected _ = true

pub data SyncStep (i : ℕ) : Sync → Sync → Type 0 where
  -- Commands of the leader's clients, with the words that its parser takes off a line.
  set_step :
      (key value : Bytes) (s : Sync)
      → IsWord key
      → IsValue value
      → SyncStep i s (record s { leader = (Storage.set key value s.leader).0 })
  get_step :
      (key : Bytes) (s : Sync) → SyncStep i s (record s { leader = (Storage.get key s.leader).0 })
  del_step :
      (key : Bytes) (s : Sync)
      → IsWord key
      → SyncStep i s (record s { leader = (Storage.del key s.leader).0 })
  stop_step : (s : Sync) → SyncStep i s (record s { leader = stop_links s.leader })
  -- The sender.
  check_step :
      (link : Link) (s : Sync)
      → s.phase ≡ idle
      → link_of i s.leader ≡ some link
      → SyncStep i s (record s { phase = if link.stop then ended else connecting })
  greet_step :
      (m : Moment) (s : Sync)
      → s.phase ≡ connecting
      → (execute_line true m replsync_text (fresh_link s.follower)).1.reply ≡ codes "OK"
      → SyncStep i s (after_greet m s)
  cut_step :
      (opened : Bool) (contents : Bytes) (s : Sync)
      → s.phase ≡ greeted
      → SyncStep i s (after_cut i opened contents s)
  snapshot_step :
      (key value : Bytes) (rest : List (Bytes × Bytes)) (s : Sync)
      → s.phase ≡ sending ((key, value) ∷ rest)
      → SyncStep i s (record s { phase = sending rest; wire = s.wire ++ set_line key value ∷ [] })
  turn_step :
      (link : Link) (s : Sync)
      → s.phase ≡ sending []
      → link_of i s.leader ≡ some link
      → SyncStep i s (after_turn i link s)
  cleanup_step :
      (link : Link) (s : Sync)
      → connected s.phase ≡ true
      → link_of i s.leader ≡ some link
      → SyncStep i s (after_cleanup i link s)
  -- The follower.
  deliver_step :
      (m : Moment) (line : Bytes) (rest : List Bytes) (s : Sync)
      → s.wire ≡ (line ++ b'\n' ∷ []) ∷ rest
      → SyncStep i s (record s { wire = rest; follower = follow m line s.follower })
  -- A handshake whose answer was lost, run late, or that of another client.
  lost_greet_step :
      (m : Moment) (s : Sync)
      → SyncStep i s (record s {
        late = s.late + 1;
        follower = follow m replsync_text (fresh_link s.follower);
      })
  late_step :
      (m : Moment) (line : Bytes) (rest : List Bytes) (s : Sync)
      → s.stale ≡ (line ++ b'\n' ∷ []) ∷ rest
      → SyncStep i s
          (record s { stale = rest; late = s.late + 1; follower = follow m line s.follower })
  reset_step : (s : Sync) → SyncStep i s (record s { stale = [] })

pub data SyncRun (i : ℕ) : Sync → Sync → Type 0 where
  here : (s : Sync) → SyncRun i s s
  then_step : {s t u : Sync} → SyncRun i s t → SyncStep i t u → SyncRun i s u
