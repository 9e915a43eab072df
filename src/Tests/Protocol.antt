-- ===== src/Tests/Protocol.antt =====
-- Lines of src/command.cpp at concrete inputs.
use redon.Prelude.{
  ◌≡◌, ◌≢◌, refl, true, false, Bytes, ◌∷◌, ◌++◌, none, some, arith, codes, cons-ne-nil, ap,
  bytes_eq, take,
}
use mathlib.Core.Bool.{false≢true}
use redon.Text.{is_space, skip_space, span_token}
use redon.Text.Span.{span}
use redon.Assoc.{find, assign}
use redon.Storage.{
  new_storage, set, set_memory, log_set, set_logged, set_new, insert_front, replicate_set,
  evict_loop, over_capacity,
}
use redon.Storage.Keeps.{new_storage-IsValid}
use redon.Storage.Lru.{wal_ok}
use redon.Raft.{new_node, is_leader}
use redon.Command.{
  World, say, skip_mark, trim_end, trim, next_token, to_upper, upper, execute_verb, execute_line,
  execute_client, is_write, not_leader, linked, run_verb, run_set,
}
use redon.Command.Parse.{IsWord, IsValue}
use redon.Command.Guards.{OnlyRead, replica-OnlyRead, outvoted-OnlyRead}
use redon.Command.Lines.{IsServing, get_line-set_line}
use redon.Tests.Elections.{moment, node}

abbrev key : Bytes
key = codes "name"

-- A value with blanks inside.
abbrev value : Bytes
value = codes "Ada  L"

key-IsWord : IsWord key
unfolding is_space
key-IsWord = record { some_byte = cons-ne-nil _ _; plain = (refl, (refl, (refl, (refl, tt)))) }

set-IsWord : IsWord (codes "set")
unfolding is_space
set-IsWord = record { some_byte = cons-ne-nil _ _; plain = (refl, (refl, (refl, tt))) }

value-IsValue : IsValue value
unfolding skip_space span is_space trim_end
value-IsValue = record { some_byte = cons-ne-nil _ _; front = refl; back = refl }

abbrev world : World
world = record {
  store = new_storage 2;
  replica_link = some false;
  raft = none;
  get_hit = some false;
}

world-IsServing : IsServing world
unfolding new_storage
world-IsServing = record {
  valid = new_storage-IsValid 2;
  bounded = λ live pos. omega arith;
  memory = refl;
  alone = refl;
}

answered :
    ((execute_line false moment (codes "SET " ++ (key ++ b' ' ∷ value)) world).1 ≡ say (codes "OK"))
    × (wal_ok (execute_line false moment (codes "SET " ++ (key ++ b' ' ∷ value)) world).0.store.wal
        ≡ true)
unfolding execute_line trim skip_mark trim_end next_token span_token skip_space span is_space
    to_upper upper execute_verb execute_client is_write not_leader run_verb run_set set set_memory
    log_set set_logged set_new insert_front replicate_set evict_loop over_capacity new_storage find
    assign bytes_eq
answered = (refl, refl)

get_line-set_line_example :
    (execute_line false moment
      (codes "GET " ++ key)
      (execute_line false moment (codes "SET " ++ (key ++ b' ' ∷ value)) world).0).1
    ≡ say value
get_line-set_line_example =
    get_line-set_line moment moment key value world key-IsWord value-IsValue world-IsServing
      answered.0 answered.1

unlinked : linked world.replica_link ≡ false
unfolding linked
unlinked = refl

other_verb : to_upper (next_token (trim (codes "del name"))).0 ≢ codes "__REPLSYNC__"
unfolding trim skip_mark trim_end next_token span_token skip_space span is_space to_upper upper
    bytes_eq
other_verb e = false≢true (ap (λ s. bytes_eq (take 1 s) (codes "_")) e)

replica-OnlyRead_example : OnlyRead world (execute_line true moment (codes "del name") world).0
replica-OnlyRead_example = replica-OnlyRead moment (codes "del name") world unlinked other_verb

follower_node : is_leader node ≡ false
unfolding is_leader new_node
follower_node = refl

outvoted-OnlyRead_example :
    OnlyRead
      (record world { raft = some node })
      (execute_line false moment (codes "SET name Ada") (record world { raft = some node })).0
outvoted-OnlyRead_example =
    outvoted-OnlyRead moment (codes "SET name Ada") (record world { raft = some node }) node refl
      follower_node
