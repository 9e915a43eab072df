-- ===== src/Replication/Lines.antt =====
-- The lines of src/replication.cpp as records of a map, and a follower of src/command.cpp that runs them.
use redon.Prelude.{
  ◌≡◌, ◌≢◌, refl, ap, sym, ◌∙◌, true, false, Bytes, [], ◌∷◌, ◌++◌, Option, none, some, arith,
  bytes_eq, codes, cons-ne-nil, append_assoc, is_empty,
}
use redon.Text.{is_space, skip_space, span_token}
use redon.Text.Span.{span}
use redon.Assoc.{find}
use redon.Wal.{LogRecord}
use redon.Wal.View.{view_record}
use redon.Storage
use redon.Storage.{Storage}
use redon.Storage.Unbounded.{IsUnbounded, set-IsUnbounded, del-IsUnbounded, find-set, find-del}
use redon.Storage.Lru.Refines.{view}
use redon.Replication.{set_line, del_line}
use redon.Raft.{Moment}
use redon.Command.{
  World, run_set, run_del, is_write, linked, not_leader, run_verb, execute_client, execute_verb,
  execute_line, to_upper, upper, trim, trim_end, next_token, skip_mark,
}
use redon.Command.Parse.{IsWord, IsValue, execute_line-key}
use redon.Command.Lines.{replica-set_text}

-- The wire line of a record, and the same without its line end.
unfoldable pub line_of : LogRecord → Bytes
line_of (LogRecord.set key value) = set_line key value
line_of (LogRecord.del key) = del_line key

unfoldable pub text_of : LogRecord → Bytes
text_of (LogRecord.set key value) = codes "SET " ++ (key ++ b' ' ∷ value)
text_of (LogRecord.del key) = codes "DEL " ++ key

pub line_of-eq : (r : LogRecord) → line_of r ≡ text_of r ++ b'\n' ∷ []
unfolding line_of text_of set_line del_line
line_of-eq (LogRecord.set key value) =
    ap (λ r. codes "SET " ++ r) (sym (append_assoc key (b' ' ∷ value) (b'\n' ∷ [])))
line_of-eq (LogRecord.del key) = refl

-- The keys and the values that the parser of a leader takes off a line.
abbrev pub IsClean : LogRecord → Type 0
IsClean (LogRecord.set key value) = IsWord key × IsValue value
IsClean (LogRecord.del key) = IsWord key

-- A follower on the link of its leader: without a log, a disk engine or a bound, and in no cluster.
pub record IsReplica (w : World) : Type 0 where
  pub store : IsUnbounded false w.store
  pub link : w.replica_link ≡ some true
  pub alone : w.raft ≡ none

-- What a line leaves of a follower.
abbrev pub follow : Moment → Bytes → World → World
follow m line w = (execute_line true m line w).0

abbrev pub held : Bytes → World → Option Bytes
held k w = find k (view w.store)

IsWord-del : IsWord (codes "DEL")
unfolding is_space
IsWord-del = record { some_byte = cons-ne-nil _ _; plain = (refl, (refl, (refl, tt))) }

is_empty-false : (s : Bytes) → s ≢ [] → is_empty s ≡ false
is_empty-false [] h = absurd (h refl)
is_empty-false (c ∷ s) h = refl

run_set-store :
    (key value : Bytes) (w : World)
    → IsWord key
    → IsValue value
    → (run_set key value w).0 ≡ record w { store = (Storage.set key value w.store).0 }
unfolding run_set
run_set-store key value w hk hv =
    rw (is_empty-false key hk.some_byte, is_empty-false value hv.some_byte) refl

run_del-store :
    (key : Bytes) (w : World)
    → IsWord key
    → (run_del key [] w).0 ≡ record w { store = (Storage.del key w.store).0 }
unfolding run_del
run_del-store key w hk = rw (is_empty-false key hk.some_byte) refl

follow-set :
    (m : Moment) (key value : Bytes) (w : World)
    → IsWord key
    → IsValue value
    → IsReplica w
    → follow m (text_of (LogRecord.set key value)) w
      ≡ record w { store = (Storage.set key value w.store).0 }
unfolding text_of
follow-set m key value w hk hv h =
    ap (λ r. r.0) (replica-set_text m key value w hk hv h.link h.alone)
    ∙ run_set-store key value w hk hv

follow-del :
    (m : Moment) (key : Bytes) (w : World)
    → IsWord key
    → IsReplica w
    → follow m (text_of (LogRecord.del key)) w ≡ record w { store = (Storage.del key w.store).0 }
unfolding text_of to_upper upper execute_verb execute_client not_leader linked run_verb bytes_eq
    is_write
follow-del m key w hk h =
    let ran : execute_line true m (codes "DEL " ++ key) w ≡ run_del key [] w =
      execute_line-key true m (codes "DEL") key w IsWord-del refl hk
      ∙ ground (arith, h.link, h.alone) in
    ap (λ r. r.0) ran ∙ run_del-store key w hk

-- A follower that runs the line of a record stays one, and the record is what its map changes by.
pub follow-record :
    (m : Moment) (r : LogRecord) (w : World)
    → IsClean r
    → IsReplica w
    → IsReplica (follow m (text_of r) w)
      × ((k : Bytes) → held k (follow m (text_of r) w) ≡ view_record r k (held k w))
follow-record m (LogRecord.set key value) w c h = rw (follow-set m key value w c.0 c.1 h) (
  record {
    store = set-IsUnbounded false key value w.store h.store;
    link = h.link;
    alone = h.alone;
  },
  λ k. find-set false key value k w.store h.store,
)
follow-record m (LogRecord.del key) w c h = rw (follow-del m key w c h) (
  record { store = del-IsUnbounded false key w.store h.store; link = h.link; alone = h.alone },
  λ k. find-del false key k w.store h.store,
)

abbrev pub ping_line : Bytes
ping_line = codes "PING\n"

abbrev pub ping_text : Bytes
ping_text = codes "PING"

pub follow-ping : (m : Moment) (w : World) → w.raft ≡ none → follow m ping_text w ≡ w
unfolding execute_line to_upper upper execute_verb execute_client not_leader linked run_verb
    bytes_eq is_write trim trim_end next_token skip_mark skip_space span_token span is_space
follow-ping m w e = ground (arith, e)
