-- ===== src/Command/Links.antt =====
-- The flag of a replication link in `execute_line` of src/command.cpp.
use redon.Prelude.{◌≡◌, Bool, true, Bytes, some, arith}
use redon.Raft.{Moment}
use redon.Command.{
  World, replsync, raft_rpc, run_set, run_get, run_del, run_verb, execute_client, execute_verb,
  execute_line, next_token, trim, to_upper,
}

abbrev IsLinked : World → Type 0
IsLinked w = w.replica_link ≡ some true

run_verb-IsLinked :
    (verb key rest : Bytes) (w : World) → IsLinked w → IsLinked (run_verb verb key rest w).0
unfolding run_verb run_set run_get run_del
run_verb-IsLinked verb key rest w h = ground (arith, h)

client-IsLinked :
    (follower : Bool) (verb key rest : Bytes) (w : World)
    → IsLinked w
    → IsLinked (execute_client follower verb key rest w).0
unfolding execute_client
client-IsLinked follower verb key rest w h = ground (arith, h, run_verb-IsLinked verb key rest w h)

verb-IsLinked :
    (follower : Bool) (m : Moment) (verb key rest : Bytes) (w : World)
    → IsLinked w
    → IsLinked (execute_verb follower m verb key rest w).0
unfolding execute_verb replsync raft_rpc
verb-IsLinked follower m verb key rest w h =
    ground (arith, h, client-IsLinked follower verb key rest w h)

-- A link stays one, whatever its line.
pub execute_line-IsLinked :
    (follower : Bool) (m : Moment) (line : Bytes) (w : World)
    → w.replica_link ≡ some true
    → (execute_line follower m line w).0.replica_link ≡ some true
unfolding execute_line
execute_line-IsLinked follower m line w h =
    let (word, after_word) = next_token (trim line) in
    let (key, rest) = next_token after_word in
    ground (arith, h, verb-IsLinked follower m (to_upper word) key rest w h)
