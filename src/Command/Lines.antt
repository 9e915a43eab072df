-- ===== src/Command/Lines.antt =====
-- Whole lines of the protocol: a SET and a GET of the same key, and the lines of the replication link.
use mathlib.Core.Bool.{false≢true}
use redon.Prelude.{
  ℕ, zero, suc, ◌≡◌, ◌≢◌, refl, ap, sym, ◌∙◌, Bool, true, false, not, ◌==◌, Bytes, List, [], ◌∷◌,
  ◌++◌, arith, if◌then◌else◌, is_empty, Bool-cases, none, some, Option-cases, inl, inr, codes,
  cons-ne-nil, append_assoc, bytes_eq, bytes_eq_refl, take,
}
use redon.Text.{is_space}
use redon.Assoc.{find}
use redon.Storage
use redon.Storage.{
  Storage, log_set, log_del, replicate_set, replicate_del, drop_back, evict_lru_locked, evict_loop,
  set_existing, insert_front, set_new, set_logged, set_memory,
}
use redon.Storage.Valid.{IsValid}
use redon.Storage.Keeps.{set-IsValid}
use redon.Storage.Lru.{touch, wal_ok}
use redon.Storage.Lru.Refines.{IsBounded, trim, view, set-touch, set_in_memory}
use redon.Storage.Lru.Reads.{get-used}
use redon.Replication.{set_line}
use redon.Raft.{Moment}
use redon.Command.{
  World, say, not_persisted, run_set, run_get, is_write, linked, not_leader, run_verb,
  execute_client, execute_verb, execute_line, to_upper, upper,
}
use redon.Command.Parse.{IsWord, IsValue, execute_line-value, execute_line-key}

disk-evict : (log : Bool) (s : Storage) → (evict_lru_locked log s).0.disk ≡ s.disk
unfolding evict_lru_locked log_del drop_back replicate_del
disk-evict log s = ground arith

disk-evict_loop :
    (test : Storage → Bool) (log : Bool) (fuel : ℕ) (s : Storage)
    → (evict_loop test log fuel s).disk ≡ s.disk
unfolding evict_loop
disk-evict_loop test log zero s = refl
disk-evict_loop test log (suc fuel) s =
    ground (arith, disk-evict log s, disk-evict_loop test log fuel (evict_lru_locked log s).0)

disk-set_logged : (k v : Bytes) (s : Storage) → (set_logged k v s).disk ≡ s.disk
unfolding set_logged set_new set_existing insert_front replicate_set
disk-set_logged k v s = elim (Option-cases (find k s.index)) [
  | inl e ↦ rw (e, set_logged) (disk-evict_loop _ true _ _ ∙ ground arith)
  | inr (n, e) ↦ rw (e, set_logged) (ground arith)
]

pub disk-set : (k v : Bytes) (s : Storage) → s.disk ≡ none → (Storage.set k v s).0.disk ≡ none
unfolding set_memory log_set
disk-set k v s e =
    ap (λ r. r.0.disk) (set_in_memory k v s e)
    ∙ ground (arith, disk-set_logged k v (log_set k v s).0)

find-keep :
    (k v : Bytes) (m : ℕ) (l : List (Bytes × Bytes))
    → find k (if m == 0 then (k, v) ∷ l else take m ((k, v) ∷ l)) ≡ some v
unfolding find
find-keep k v zero l = ground (arith, bytes_eq_refl k)
find-keep k v (suc m) l = ground (arith, bytes_eq_refl k)

find-trim :
    (k v : Bytes) (s : Storage) (l : List (Bytes × Bytes)) → find k (trim s (touch k v l)) ≡ some v
unfolding find
find-trim k v s l = elim (Bool-cases s.replaying) [
  | inl e ↦ rw e (ground (arith, bytes_eq_refl k))
  | inr e ↦ rw e (find-keep k v s.capacity _)
]

-- A node that serves clients: an in-memory store, and no cluster.
pub record IsServing (w : World) : Type 0 where
  pub valid : IsValid w.store
  pub bounded : IsBounded w.store
  pub memory : w.store.disk ≡ none
  pub alone : w.raft ≡ none

is_empty_word : (s : Bytes) → s ≢ [] → is_empty s ≡ false
is_empty_word [] h = absurd (h refl)
is_empty_word (c ∷ s) h = refl

upper_set : IsWord (codes "SET")
unfolding is_space
upper_set = record { some_byte = cons-ne-nil _ _; plain = (refl, (refl, (refl, tt))) }

upper_get : IsWord (codes "GET")
unfolding is_space
upper_get = record { some_byte = cons-ne-nil _ _; plain = (refl, (refl, (refl, tt))) }

run_set_line :
    (m : Moment) (key value : Bytes) (w : World)
    → IsWord key
    → IsValue value
    → w.raft ≡ none
    → execute_line false m (codes "SET " ++ (key ++ b' ' ∷ value)) w ≡ run_set key value w
unfolding to_upper upper execute_verb execute_client not_leader run_verb bytes_eq is_write
run_set_line m key value w hk hv alone =
    execute_line-value false m (codes "SET") key w upper_set refl hk value hv
    ∙ ground (arith, alone)

run_get_line :
    (m : Moment) (key : Bytes) (w : World)
    → IsWord key
    → execute_line false m (codes "GET " ++ key) w ≡ run_get key [] w
unfolding to_upper upper execute_verb execute_client not_leader run_verb bytes_eq is_write
run_get_line m key w hk = execute_line-key false m (codes "GET") key w upper_get refl hk

run_set_ok :
    (key value : Bytes) (w : World)
    → IsWord key
    → IsValue value
    → (run_set key value w).1 ≡ say (codes "OK")
    → ((Storage.set key value w.store).1 ≡ true)
      × ((run_set key value w).0 ≡ record w { store = (Storage.set key value w.store).0 })
unfolding run_set bytes_eq
run_set_ok key value w hk hv =
    rw (is_empty_word key hk.some_byte, is_empty_word value hv.some_byte)
      (λ h. (done (Storage.set key value w.store).1 h, refl))
  where
    done :
        (ok : Bool)
        → say (if not ok then not_persisted else codes "OK") ≡ say (codes "OK")
        → ok ≡ true
    done true h = refl
    done false h = absurd (false≢true (ap (λ a. bytes_eq a.reply (codes "OK")) h))

run_get_found :
    (key value : Bytes) (w : World)
    → IsWord key
    → (Storage.get key w.store).1 ≡ some value
    → (run_get key [] w).1 ≡ say value
unfolding run_get
run_get_found key value w hk e = rw (is_empty_word key hk.some_byte, e) refl

-- On a node without a cluster whose store is in memory, a valid and bounded one, and that does not follow
-- another, a SET line that is answered with OK makes a GET line of its key answer the value
-- that followed the key, blanks inside the value included, as long as no write of the log has failed.
pub get_line-set_line :
    (m m' : Moment) (key value : Bytes) (w : World)
    → IsWord key
    → IsValue value
    → IsServing w
    → (execute_line false m (codes "SET " ++ (key ++ b' ' ∷ value)) w).1 ≡ say (codes "OK")
    → wal_ok (execute_line false m (codes "SET " ++ (key ++ b' ' ∷ value)) w).0.store.wal ≡ true
    → (execute_line false m'
        (codes "GET " ++ key)
        (execute_line false m (codes "SET " ++ (key ++ b' ' ∷ value)) w).0).1
      ≡ say value
get_line-set_line m m' key value w hk hv serving =
    rw (run_set_line m key value w hk hv serving.alone) (λ ok good.
      let (done, left) = run_set_ok key value w hk hv ok in
      let s' = (Storage.set key value w.store).0 in
      let seen =
        set-touch key value w.store serving.valid serving.bounded serving.memory done
          (sym (ap (λ v. wal_ok v.store.wal) left) ∙ good) in
      let found : (Storage.get key s').1 ≡ some value =
        (get-used key s' (set-IsValid key value w.store serving.valid)
          (disk-set key value w.store serving.memory)).0
        ∙ ap (find key) seen
        ∙ find-trim key value w.store (view w.store) in
      ap (λ v. (execute_line false m' (codes "GET " ++ key) v).1) left
      ∙ ap (λ r. r.1) (run_get_line m' key (record w { store = s' }) hk)
      ∙ run_get_found key value (record w { store = s' }) hk found)

pub replica-set_text :
    (m : Moment) (key value : Bytes) (w : World)
    → IsWord key
    → IsValue value
    → w.replica_link ≡ some true
    → w.raft ≡ none
    → execute_line true m (codes "SET " ++ (key ++ b' ' ∷ value)) w ≡ run_set key value w
unfolding to_upper upper execute_verb execute_client not_leader linked run_verb bytes_eq is_write
replica-set_text m key value w hk hv link alone =
    execute_line-value true m (codes "SET") key w upper_set refl hk value hv
    ∙ ground (arith, alone, link)

-- A line that the leader sends for a SET is run by a follower, on the link, as the SET of that key and
-- value.
pub replica-set_line :
    (m : Moment) (key value : Bytes) (w : World)
    → IsWord key
    → IsValue value
    → w.replica_link ≡ some true
    → w.raft ≡ none
    → (line : Bytes) × (set_line key value ≡ line ++ b'\n' ∷ [])
      × (execute_line true m line w ≡ run_set key value w)
unfolding set_line
replica-set_line m key value w hk hv link alone = (
  codes "SET " ++ (key ++ b' ' ∷ value),
  ap (λ r. codes "SET " ++ r) (sym (append_assoc key (b' ' ∷ value) (b'\n' ∷ []))),
  replica-set_text m key value w hk hv link alone,
)
