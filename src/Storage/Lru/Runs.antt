-- ===== src/Storage/Lru/Runs.antt =====
-- The cache of src/storage.cpp alone, without a log or a disk engine, over sequences of commands.
use mathlib.Core.Path.{ap₂, subst}
use redon.Prelude.{
  ℕ, ◌≤◌, ◌<◌, ◌≡◌, ◌⊎◌, refl, ap, sym, ◌∙◌, Bool, true, false, Bytes, List, [], ◌∷◌, Option, none,
  some, arith, ◌==◌, length, length-take-le, Bool-cases, Option-cases, inl, inr,
}
use redon.Assoc.{find, erase}
use redon.Storage.{Storage, new_storage, log_del, set_logged, set, get, del}
use redon.Storage.Alone.{Alone, Alone-set_logged, set-Alone, Alone-get, Alone-del, log_del-Alone}
use redon.Storage.Valid.{IsValid}
use redon.Storage.Keeps.{new_storage-IsValid, set-IsValid, get-IsValid, del-IsValid}
use redon.Storage.Lru.{entries, touch, keep, wal_ok, length-entries}
use redon.Storage.Lru.Refines.{IsBounded, view, set-touch}
use redon.Storage.Lru.Reads.{used, count, del_logged, Deleted, get-used, del-Deleted}

-- The client commands that the cache answers.
pub data Command : Type 0 where
  set_command : Bytes → Bytes → Command
  get_command del_command : Bytes → Command

-- What a command answers: SET, whether it was done; GET, the value; DEL, the number removed.
pub data Answer : Type 0 where
  done : Bool → Answer
  value : Option Bytes → Answer
  removed : ℕ → Answer

unfoldable pub run_command : Command → Storage → Storage × Answer
run_command (set_command k v) s = let (s', ok) = set k v s in (s', done ok)
run_command (get_command k) s = let (s', v) = get k s in (s', value v)
run_command (del_command k) s = let (s', n, durable) = del k s in (s', removed n)

unfoldable pub run_commands : List Command → Storage → Storage × List Answer
unfolding run_command
run_commands [] s = (s, [])
run_commands (c ∷ cs) s =
    let (s', a) = run_command c s in let (s'', rest) = run_commands cs s' in (s'', a ∷ rest)

-- The contract: the entries of a cache, most recently used first.
unfoldable pub lru_command : ℕ → Command → List (Bytes × Bytes) → List (Bytes × Bytes) × Answer
lru_command capacity (set_command k v) l = (keep capacity (touch k v l), done true)
lru_command capacity (get_command k) l = (used k (find k l) l, value (find k l))
lru_command capacity (del_command k) l = (erase k l, removed (count (find k l)))

unfoldable pub lru_commands :
    ℕ → List Command → List (Bytes × Bytes) → List (Bytes × Bytes) × List Answer
unfolding lru_command
lru_commands capacity [] l = (l, [])
lru_commands capacity (c ∷ cs) l =
    let (l', a) = lru_command capacity c l in
    let (l'', rest) = lru_commands capacity cs l' in (l'', a ∷ rest)

module _ (m : ℕ) where
  logged-Alone :
      (k : Bytes) (s : Storage) (o : Option Bytes)
      → Alone m false s
      → del_logged o (log_del k s).1 ≡ true
  logged-Alone k s none h = refl
  logged-Alone k s (some v) h = log_del-Alone m false k s h

  -- What a run keeps: the invariant, the bound and the way of running.
  record Running (s : Storage) : Type 0 where
    valid : IsValid s
    bounded : length (view s) ≤ m ⊎ (m ≡ 0)
    alone : Alone m false s

  Running-IsBounded : (s : Storage) → Running s → IsBounded s
  Running-IsBounded s h live pos = elim h.bounded [
    | inl le ↦ omega (arith, length-entries s.items, h.alone.bound)
    | inr z ↦ absurd (omega (arith, h.alone.bound))
  ]

  length-erase_le : (k : Bytes) (l : List (Bytes × Bytes)) → length (erase k l) ≤ length l
  unfolding erase
  length-erase_le k [] = omega arith
  length-erase_le k (p ∷ l) = ground (arith, length-erase_le k l)

  length-erase_lt :
      (k v : Bytes) (l : List (Bytes × Bytes)) → find k l ≡ some v → length (erase k l) < length l
  unfolding erase find
  length-erase_lt k v [] e = ground arith
  length-erase_lt k v (p ∷ l) e = ground (arith, length-erase_lt k v l, length-erase_le k l)

  within-keep : (l : List (Bytes × Bytes)) → length (keep m l) ≤ m ⊎ (m ≡ 0)
  within-keep l = elim (Bool-cases (m == 0)) [
    | inl e ↦ inr (ground arith)
    | inr e ↦ inl (ground (arith, length-take-le m l))
  ]

  within-erase :
      (k : Bytes) (l : List (Bytes × Bytes))
      → length l ≤ m ⊎ (m ≡ 0)
      → length (erase k l) ≤ m ⊎ (m ≡ 0)
  within-erase k l (inr z) = inr z
  within-erase k l (inl le) = inl (omega (arith, length-erase_le k l, le))

  within-used :
      (k : Bytes) (l : List (Bytes × Bytes))
      → length l ≤ m ⊎ (m ≡ 0)
      → length (used k (find k l) l) ≤ m ⊎ (m ≡ 0)
  within-used k l (inr z) = inr z
  within-used k l (inl le) = elim (Option-cases (find k l)) [
    | inl e ↦ rw e (inl le)
    | inr (v, e) ↦ rw e (inl (omega (arith, length-erase_lt k v l e, le)))
  ]

  abbrev Agrees : Storage × Answer → List (Bytes × Bytes) × Answer → Type 0
  Agrees r a = Running r.0 × (view r.0 ≡ a.0) × (r.1 ≡ a.1)

  run_command-lru :
      (c : Command) (s : Storage) → Running s → Agrees (run_command c s) (lru_command m c (view s))
  unfolding run_command lru_command
  run_command-lru (set_command k v) s h =
      let ran = set-Alone m false k v s h.alone in
      let alone = Alone-set_logged m false k v s h.alone in
      let seen : view (set_logged k v s) ≡ keep m (touch k v (view s)) =
        ap (λ r. view r.0) (sym ran)
        ∙ set-touch k v s h.valid (Running-IsBounded s h) h.alone.disk (ap (λ r. r.1) ran)
            (ap (λ r. wal_ok r.0.wal) ran ∙ ap wal_ok alone.wal)
        ∙ ground (arith, h.alone.mode, h.alone.bound) in
      rw ran (
        record {
          valid = subst IsValid (ap (λ r. r.0) ran) (set-IsValid k v s h.valid);
          bounded = rw seen (within-keep _);
          alone = alone;
        },
        seen,
        refl,
      )
  run_command-lru (get_command k) s h =
      let (answered, left) = get-used k s h.valid h.alone.disk in
      (
        record {
          valid = get-IsValid k s h.valid;
          bounded = rw left (within-used k (view s) h.bounded);
          alone = Alone-get m false k s h.alone;
        },
        left,
        ap value answered,
      )
  run_command-lru (del_command k) s h =
      let logged = logged-Alone k s (find k (view s)) h.alone in
      let d = subst (λ b. Deleted k b s (del k s)) logged (del-Deleted k s h.valid h.alone.disk) in
      (
        record {
          valid = del-IsValid k s h.valid;
          bounded = rw d.entries (within-erase k (view s) h.bounded);
          alone = Alone-del m false k s h.alone;
        },
        d.entries,
        ap removed d.removed,
      )

  runs_from :
      (cs : List Command) (s : Storage)
      → Running s
      → (view (run_commands cs s).0 ≡ (lru_commands m cs (view s)).0)
        × ((run_commands cs s).1 ≡ (lru_commands m cs (view s)).1)
  unfolding run_commands lru_commands
  runs_from [] s h = (refl, refl)
  runs_from (c ∷ cs) s h =
      let (running, seen, answered) = run_command-lru c s h in
      let (left, answers) = runs_from cs (run_command c s).0 running in
      (
        left ∙ ap (λ l. (lru_commands m cs l).0) seen,
        ap₂ (λ a l. a ∷ l) answered (answers ∙ ap (λ l. (lru_commands m cs l).1) seen),
      )

-- A fresh cache without a log, a disk engine or followers answers every sequence of SET, GET and DEL
-- as the least-recently-used contract does, and holds the contract's entries in its order at the end.
pub run_commands-lru :
    (capacity : ℕ) (cs : List Command)
    → (view (run_commands cs (new_storage capacity)).0 ≡ (lru_commands capacity cs []).0)
      × ((run_commands cs (new_storage capacity)).1 ≡ (lru_commands capacity cs []).1)
unfolding new_storage entries
run_commands-lru capacity cs = runs_from capacity cs (new_storage capacity) (record {
  valid = new_storage-IsValid capacity;
  bounded = inl (omega arith);
  alone = record { disk = refl; wal = refl; mode = refl; bound = refl };
})
