-- ===== src/Replication/Stale.antt =====
-- What src/replication.cpp and src/command.cpp make of a connection that is over while the follower
-- still has lines of it to run.
use redon.Prelude.{
  ◌+◌, ◌≡◌, refl, ap, ◌∙◌, true, false, Bytes, List, [], ◌∷◌, ◌++◌, none, some, arith, codes,
  cons-ne-nil, All, bytes_eq, bytes_eq_refl,
}
use redon.Assoc.{find, assign}
use redon.Text.{is_space, skip_space}
use redon.Text.Span.{span}
use redon.Text.Decimal.{is_digit, value}
use redon.Wal.{LogRecord}
use redon.Storage
use redon.Storage.{
  Storage, new_storage, set, set_memory, log_set, set_logged, set_new, set_existing, insert_front,
  replicate_set, evict_loop, evict_lru_locked, over_capacity, splice_front, set_value, node_at,
  erase_node, get, get_memory, attach_replicator, back,
}
use redon.Storage.Lru.Reads.{get-used}
use redon.Storage.Keeps.{new_storage-IsValid}
use redon.Storage.Snapshot.{snapshot_locked}
use redon.Command.{World}
use redon.Command.Parse.{IsWord, IsValue}
use redon.Raft.{Moment}
use redon.Replication
use redon.Replication.{
  Link, Replicator, enqueue, enqueue_link, set_line, begin_streaming, new_replicator, new_links,
  take_line, cleanup, link_at, update_link,
}
use redon.Replication.Lines.{
  ping_line, text_of, line_of, line_of-eq, IsReplica, follow, follow-record,
}
use redon.Replication.Sender.{
  connecting, sending, Sync, link_of, change_link, after_greet, after_cut, after_cleanup, set_step,
  check_step, greet_step, cut_step, snapshot_step, cleanup_step, deliver_step, late_step, SyncRun,
  here, then_step,
}
use redon.Replication.Converge.{new_sync}
use redon.Replication.Onward.{run_both, Onward}
use redon.Replication.Still.{Still, Still-Onward}
use redon.Text.Address.{split_host_port, rsplit, port_of}
use redon.Text.Integer.{parse_integer, integer_of, signed}
use redon.Replication.Agree.Handshake.{follow-replsync, replsync-reply}

-- A leader of one follower, both empty.
abbrev pub empty_follower : World
empty_follower = record {
  store = new_storage 0;
  replica_link = some true;
  raft = none;
  get_hit = none;
}

abbrev pub addresses : List Bytes
addresses = codes "f:1" ∷ []

abbrev pub empty_pair : Sync
empty_pair = new_sync addresses (new_storage 0) empty_follower

abbrev pub idle_link : Link
idle_link = record {
  host = codes "f";
  port = 1;
  queue = [];
  streaming = false;
  resync_needed = false;
  stop = false;
}

abbrev pub streaming_link : Link
streaming_link = record {
  host = codes "f";
  port = 1;
  queue = [];
  streaming = true;
  resync_needed = false;
  stop = false;
}

abbrev pub a_key : Bytes
a_key = codes "k"

pub a_key-IsWord : IsWord a_key
unfolding is_space
a_key-IsWord = record { some_byte = cons-ne-nil _ _; plain = (refl, tt) }

pub empty_follower-IsReplica : IsReplica empty_follower
unfolding new_storage
empty_follower-IsReplica = record {
  store = record {
    valid = new_storage-IsValid 0;
    alone = record { disk = refl; wal = refl; mode = refl; bound = refl };
  };
  link = refl;
  alone = refl;
}

module _ (m : Moment) (old new : Bytes) (old_ok : IsValue old) (new_ok : IsValue new) where
  -- A session from the check of the stop flag to the snapshot of one entry.
  abbrev pub session : Sync → Bytes → Sync
  session s value =
      let cut = after_cut 0 false [] (after_greet m (record s { phase = connecting })) in
      record cut { phase = sending []; wire = cut.wire ++ set_line a_key value ∷ [] }

  abbrev pub written : Sync
  written = record empty_pair { leader = (set a_key old empty_pair.leader).0 }

  abbrev pub broken : Sync
  broken = after_cleanup 0 streaming_link (session written old)

  abbrev pub rewritten : Sync
  rewritten = record broken { leader = (set a_key new broken.leader).0 }

  abbrev pub again : Sync
  again = session rewritten new

  first_session : SyncRun 0 empty_pair broken
  unfolding set set_memory log_set set_logged set_new insert_front replicate_set
      Replication.replicate_set evict_loop over_capacity find assign new_storage attach_replicator
      after_greet after_cut after_cleanup snapshot_locked change_link update_link begin_streaming
      cleanup enqueue enqueue_link link_at new_sync new_replicator new_links split_host_port rsplit
      port_of parse_integer integer_of signed value is_digit skip_space is_space span
  first_session =
      let begin : SyncRun 0 empty_pair empty_pair = here empty_pair in
      let wrote = then_step begin (set_step a_key old empty_pair a_key-IsWord old_ok) in
      let tested = then_step wrote (check_step idle_link written refl refl) in
      let ready : Sync = record written { phase = connecting } in
      let greeted =
        then_step tested (greet_step m ready refl (replsync-reply m ready.follower refl)) in
      let cut = then_step greeted (cut_step false [] (after_greet m ready) refl) in
      let sent =
        then_step cut
          (snapshot_step a_key old [] (after_cut 0 false [] (after_greet m ready)) refl) in
      then_step sent (cleanup_step streaming_link (session written old) refl refl)

  first-IsReplica : IsReplica broken.follower
  unfolding after_greet after_cut after_cleanup snapshot_locked attach_replicator new_sync
  first-IsReplica = (follow-replsync m empty_follower empty_follower-IsReplica).0

  second_session : SyncRun 0 broken again
  unfolding set set_memory log_set set_logged set_new insert_front replicate_set
      Replication.replicate_set evict_loop over_capacity find assign set_existing splice_front
      set_value node_at erase_node bytes_eq new_storage attach_replicator after_greet after_cut
      after_cleanup snapshot_locked change_link update_link begin_streaming cleanup enqueue
      enqueue_link link_at new_sync new_replicator new_links split_host_port rsplit port_of
      parse_integer integer_of signed value is_digit skip_space is_space span
  second_session =
      let begin : SyncRun 0 broken broken = here broken in
      let wrote = then_step begin (set_step a_key new broken a_key-IsWord new_ok) in
      let tested = then_step wrote (check_step idle_link rewritten refl refl) in
      let ready : Sync = record rewritten { phase = connecting } in
      let greeted = then_step tested (
        greet_step m ready refl
          (replsync-reply m ready.follower first-IsReplica.store.alone.disk)) in
      let cut = then_step greeted (cut_step false [] (after_greet m ready) refl) in
      then_step cut (snapshot_step a_key new [] (after_cut 0 false [] (after_greet m ready)) refl)

  abbrev pub delivered : Sync
  delivered = record again {
    wire = [];
    follower = follow m (text_of (LogRecord.set a_key new)) again.follower;
  }

  -- The end of it: the stale line has been run behind those of the second session.
  abbrev pub overtaken : Sync
  overtaken = record delivered {
    stale = [];
    late = delivered.late + 1;
    follower = follow m (text_of (LogRecord.set a_key old)) delivered.follower;
  }

  last_lines : SyncRun 0 again overtaken
  unfolding set set_memory log_set set_logged set_new insert_front replicate_set
      Replication.replicate_set evict_loop over_capacity find assign set_existing splice_front
      set_value node_at erase_node bytes_eq get get_memory new_storage attach_replicator after_greet
      after_cut after_cleanup snapshot_locked change_link update_link begin_streaming cleanup
      enqueue enqueue_link link_at new_sync new_replicator new_links split_host_port rsplit port_of
      parse_integer integer_of signed value is_digit skip_space is_space span line_of
  last_lines =
      let begin : SyncRun 0 again again = here again in
      let first = then_step begin (
        deliver_step m (text_of (LogRecord.set a_key new)) [] again
          (ap (λ l. l ∷ []) (line_of-eq (LogRecord.set a_key new)))) in
      then_step first (
        late_step m (text_of (LogRecord.set a_key old)) [] delivered
          (ap (λ l. l ∷ []) (line_of-eq (LogRecord.set a_key old))))

  leader_has :
      ((Storage.get a_key overtaken.leader).1 ≡ some new)
      × (link_of 0 overtaken.leader ≡ some streaming_link)
  unfolding set set_memory log_set set_logged set_new insert_front replicate_set
      Replication.replicate_set evict_loop over_capacity find assign set_existing splice_front
      set_value node_at erase_node bytes_eq get get_memory new_storage attach_replicator after_greet
      after_cut after_cleanup snapshot_locked change_link update_link begin_streaming cleanup
      enqueue enqueue_link link_at new_sync new_replicator new_links split_host_port rsplit port_of
      parse_integer integer_of signed value is_digit skip_space is_space span
  leader_has = (refl, refl)

  follower_has :
      ((Storage.get a_key overtaken.follower.store).1 ≡ some old) × (overtaken.follower.raft ≡ none)
  unfolding after_greet after_cut after_cleanup snapshot_locked find
  follower_has =
      let (cleared, _) = follow-replsync m broken.follower first-IsReplica in
      let (fed, _) =
        follow-record m (LogRecord.set a_key new) again.follower (a_key-IsWord, new_ok) cleared in
      let (late, seen) =
        follow-record m (LogRecord.set a_key old) delivered.follower (a_key-IsWord, old_ok) fed in
      (
        (get-used a_key overtaken.follower.store late.store.valid late.store.alone.disk).0
            ∙ seen a_key
            ∙ ground (arith, bytes_eq_refl a_key),
        late.alone,
      )

  pub overtaken_link : link_of 0 overtaken.leader ≡ some streaming_link
  overtaken_link = leader_has.1

  overtaken-Still : Still 0 streaming_link overtaken overtaken
  unfolding after_cut
  overtaken-Still = record {
    past = refl;
    at = leader_has.1;
    pings = tt;
    stale = refl;
    leader = λ k. refl;
    follower = refl;
  }

-- A leader and its follower can come to disagree though the link streams, its queue is empty and
-- everything that was sent has been run: a line of a connection that is over has been run once the next
-- connection had filled the follower again. Whatever two values a client gave the key, the follower
-- answers the old one and the leader the new one, and however long the sender and the follower go on
-- from there, they only exchange pings and the answers stay as they are.
pub stale_line_wins :
    (m : Moment) (old new : Bytes) (old_ok : IsValue old) (new_ok : IsValue new) (t : Sync)
    → Onward 0 (overtaken m old new old_ok new_ok) t
    → SyncRun 0 empty_pair (overtaken m old new old_ok new_ok)
      × ((overtaken m old new old_ok new_ok).late ≡ 1)
      × (t.phase ≡ sending [])
      × (link_of 0 t.leader ≡ some streaming_link)
      × All (λ line. line ≡ ping_line) t.wire
      × (t.stale ≡ [])
      × ((Storage.get a_key t.leader).1 ≡ some new)
      × ((Storage.get a_key t.follower.store).1 ≡ some old)
unfolding after_greet after_cut after_cleanup
stale_line_wins m old new old_ok new_ok t onward =
    let (leads, at) = leader_has m old new old_ok new_ok in
    let (follows, alone) = follower_has m old new old_ok new_ok in
    let last =
      Still-Onward 0 streaming_link (overtaken m old new old_ok new_ok) refl refl alone onward
        (overtaken-Still m old new old_ok new_ok) in
    (
      run_both
          (run_both (first_session m old new old_ok new_ok)
            (second_session m old new old_ok new_ok))
          (last_lines m old new old_ok new_ok),
      refl,
      last.past,
      last.at,
      last.pings,
      last.stale,
      last.leader a_key ∙ leads,
      ap (λ w. (Storage.get a_key w.store).1) last.follower ∙ follows,
    )
