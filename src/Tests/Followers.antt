-- ===== src/Tests/Followers.antt =====
-- The replication of src/replication.cpp at concrete inputs.
use redon.Prelude.{
  All, ◌≡◌, refl, ap, false, Bytes, [], ◌∷◌, ◌++◌, some, arith, codes, cons-ne-nil, bytes_eq,
}
use redon.Assoc.{find, assign}
use redon.Text.{is_space, skip_space}
use redon.Text.Span.{span}
use redon.Text.Decimal.{is_digit, value}
use redon.Text.Address.{split_host_port, rsplit, port_of}
use redon.Text.Integer.{parse_integer, integer_of, signed}
use redon.Wal.{LogRecord}
use redon.Storage
use redon.Storage.{
  Storage, new_storage, set, set_memory, log_set, set_logged, set_new, insert_front, replicate_set,
  evict_loop, over_capacity, attach_replicator,
}
use redon.Storage.Keeps.{new_storage-IsValid}
use redon.Storage.Lru.{entries}
use redon.Storage.Snapshot.{snapshot_locked}
use redon.Command.{trim_end}
use redon.Command.Parse.{IsWord, IsValue}
use redon.Replication
use redon.Replication.{
  Link, enqueue, enqueue_link, set_line, begin_streaming, new_replicator, new_links, take_line,
  cleanup, link_at, update_link,
}
use redon.Replication.Lines.{ping_line, text_of, line_of, line_of-eq, follow}
use redon.Replication.Sender.{
  Sync, connecting, sending, link_of, change_link, after_greet, after_cut, after_turn,
  after_cleanup, set_step, check_step, greet_step, cut_step, snapshot_step, turn_step, deliver_step,
  SyncRun, here, then_step,
}
use redon.Replication.Bounds.Links.{IsBoundedLink}
use redon.Replication.Bounds.{queue-le-max}
use redon.Replication.Converge.{new_sync, IsReady, IsQuiet, run-converges}
use redon.Replication.Onward.{Onward, Onward-here, Onward-then}
use redon.Replication.CatchUp.{IsSession, catches_up}
use redon.Replication.Agree.Handshake.{replsync-reply}
use redon.Replication.Stale.{
  empty_follower, addresses, empty_pair, idle_link, streaming_link, a_key, a_key-IsWord,
  empty_follower-IsReplica, overtaken, overtaken_link, stale_line_wins,
}
use redon.Tests.Elections.{moment}

abbrev one : Bytes
one = codes "1"

abbrev two : Bytes
two = codes "2 b"

abbrev other : Bytes
other = codes "m"

one-IsValue : IsValue one
unfolding skip_space span is_space trim_end
one-IsValue = record { some_byte = cons-ne-nil _ _; front = refl; back = refl }

two-IsValue : IsValue two
unfolding skip_space span is_space trim_end
two-IsValue = record { some_byte = cons-ne-nil _ _; front = refl; back = refl }

other-IsWord : IsWord other
unfolding is_space
other-IsWord = record { some_byte = cons-ne-nil _ _; plain = (refl, tt) }

ready : IsReady (new_storage 0) empty_follower
unfolding new_storage entries find
ready = record {
  valid = new_storage-IsValid 0;
  memory = refl;
  sendable = λ k v e. absurd (ground arith);
  replica = empty_follower-IsReplica;
}

-- A write before the handshake, one behind the cut, and the first line run.
abbrev written : Sync
written = record empty_pair { leader = (set a_key one empty_pair.leader).0 }

abbrev connected_pair : Sync
connected_pair = record written { phase = connecting }

abbrev cut_pair : Sync
cut_pair = after_cut 0 false [] (after_greet moment connected_pair)

abbrev copied : Sync
copied = record cut_pair { phase = sending []; wire = cut_pair.wire ++ set_line a_key one ∷ [] }

abbrev queued : Sync
queued = record copied { leader = (set other two copied.leader).0 }

run_queued : SyncRun 0 empty_pair queued
unfolding set set_memory log_set set_logged set_new insert_front replicate_set
    Replication.replicate_set evict_loop over_capacity find assign bytes_eq after_turn take_line
    line_of new_storage attach_replicator after_greet after_cut after_cleanup snapshot_locked
    change_link update_link begin_streaming cleanup enqueue enqueue_link link_at new_sync
    new_replicator new_links split_host_port rsplit port_of parse_integer integer_of signed value
    is_digit skip_space is_space span
run_queued =
    let begin : SyncRun 0 empty_pair empty_pair = here empty_pair in
    let wrote = then_step begin (set_step a_key one empty_pair a_key-IsWord one-IsValue) in
    let tested = then_step wrote (check_step idle_link written refl refl) in
    let greeted = then_step tested (
      greet_step moment connected_pair refl (replsync-reply moment connected_pair.follower refl)) in
    let cut = then_step greeted (cut_step false [] (after_greet moment connected_pair) refl) in
    let sent = then_step cut (snapshot_step a_key one [] cut_pair refl) in
    then_step sent (set_step other two copied other-IsWord two-IsValue)

abbrev queued_link : Link
queued_link = record streaming_link { queue = set_line other two ∷ [] }

queued-IsSession : IsSession 0 queued
unfolding set set_memory log_set set_logged set_new insert_front replicate_set
    Replication.replicate_set evict_loop over_capacity find assign bytes_eq after_turn take_line
    line_of new_storage attach_replicator after_greet after_cut after_cleanup snapshot_locked
    change_link update_link begin_streaming cleanup enqueue enqueue_link link_at new_sync
    new_replicator new_links split_host_port rsplit port_of parse_integer integer_of signed value
    is_digit skip_space is_space span
queued-IsSession = record {
  link = queued_link;
  at = refl;
  streaming = refl;
  going = refl;
  on_time = refl;
}

queued_phase : queued.phase ≡ sending []
unfolding after_cut
queued_phase = refl

queued_at : link_of 0 queued.leader ≡ some queued_link
unfolding set set_memory log_set set_logged set_new insert_front replicate_set
    Replication.replicate_set evict_loop over_capacity find assign bytes_eq after_turn take_line
    line_of new_storage attach_replicator after_greet after_cut after_cleanup snapshot_locked
    change_link update_link begin_streaming cleanup enqueue enqueue_link link_at new_sync
    new_replicator new_links split_host_port rsplit port_of parse_integer integer_of signed value
    is_digit skip_space is_space span
queued_at = refl

queue-le-max_example : IsBoundedLink queued_link
queue-le-max_example =
    queue-le-max 0 0 addresses (new_storage 0) empty_follower queued queued_link run_queued
      queued_at

catches_up_example :
    (t : Sync) × Onward 0 queued t
    × IsQuiet 0 t
    × ((k : Bytes) → (Storage.get k t.follower.store).1 ≡ (Storage.get k queued.leader).1)
catches_up_example =
    catches_up 0 moment addresses (new_storage 0) empty_follower queued [] ready run_queued
      queued_phase queued-IsSession

-- The rest of the run, by hand.
abbrev streamed : Sync
streamed = after_turn 0 queued_link queued

abbrev half : Sync
half = record streamed {
  wire = set_line other two ∷ [];
  follower = follow moment (text_of (LogRecord.set a_key one)) streamed.follower;
}

abbrev whole : Sync
whole = record half {
  wire = [];
  follower = follow moment (text_of (LogRecord.set other two)) half.follower;
}

run_whole : SyncRun 0 empty_pair whole
unfolding set set_memory log_set set_logged set_new insert_front replicate_set
    Replication.replicate_set evict_loop over_capacity find assign bytes_eq after_turn take_line
    line_of new_storage attach_replicator after_greet after_cut after_cleanup snapshot_locked
    change_link update_link begin_streaming cleanup enqueue enqueue_link link_at new_sync
    new_replicator new_links split_host_port rsplit port_of parse_integer integer_of signed value
    is_digit skip_space is_space span
run_whole =
    let streaming = then_step run_queued (turn_step queued_link queued refl refl) in
    let first = then_step streaming (
      deliver_step moment (text_of (LogRecord.set a_key one)) (set_line other two ∷ []) streamed
        (ap (λ l. l ∷ set_line other two ∷ []) (line_of-eq (LogRecord.set a_key one)))) in
    then_step first (
      deliver_step moment (text_of (LogRecord.set other two)) [] half
        (ap (λ l. l ∷ []) (line_of-eq (LogRecord.set other two))))

whole-IsQuiet : IsQuiet 0 whole
unfolding set set_memory log_set set_logged set_new insert_front replicate_set
    Replication.replicate_set evict_loop over_capacity find assign bytes_eq after_turn take_line
    line_of new_storage attach_replicator after_greet after_cut after_cleanup snapshot_locked
    change_link update_link begin_streaming cleanup enqueue enqueue_link link_at new_sync
    new_replicator new_links split_host_port rsplit port_of parse_integer integer_of signed value
    is_digit skip_space is_space span
whole-IsQuiet = record {
  link = streaming_link;
  at = refl;
  streaming = refl;
  past = refl;
  wire = refl;
  queue = refl;
  on_time = refl;
}

run-converges_example :
    (Storage.get a_key whole.follower.store).1 ≡ (Storage.get a_key whole.leader).1
run-converges_example =
    run-converges 0 addresses (new_storage 0) empty_follower whole ready run_whole whole-IsQuiet
      a_key

-- A ping behind the stale line.
abbrev gone_stale : Sync
gone_stale = overtaken moment one two one-IsValue two-IsValue

pinged : Onward 0 gone_stale (after_turn 0 streaming_link gone_stale)
unfolding after_cut
pinged =
    Onward-then (Onward-here gone_stale)
      (turn_step streaming_link gone_stale refl
        (overtaken_link moment one two one-IsValue two-IsValue))
      tt

stale_line_wins_example :
    SyncRun 0 empty_pair gone_stale
    × (gone_stale.late ≡ 1)
    × ((after_turn 0 streaming_link gone_stale).phase ≡ sending [])
    × (link_of 0 (after_turn 0 streaming_link gone_stale).leader ≡ some streaming_link)
    × All (λ line. line ≡ ping_line) (after_turn 0 streaming_link gone_stale).wire
    × ((after_turn 0 streaming_link gone_stale).stale ≡ [])
    × ((Storage.get a_key (after_turn 0 streaming_link gone_stale).leader).1 ≡ some two)
    × ((Storage.get a_key (after_turn 0 streaming_link gone_stale).follower.store).1 ≡ some one)
stale_line_wins_example =
    stale_line_wins moment one two one-IsValue two-IsValue (after_turn 0 streaming_link gone_stale)
      pinged
