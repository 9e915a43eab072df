-- ===== src/Storage/Lru/Reads.antt =====
-- GET, DEL and a refused SET of src/storage.cpp against the contract of the cache.
use redon.Prelude.{
  ℕ, ◌≡◌, refl, ap, sym, ◌∙◌, Bool, true, false, Bytes, List, [], ◌∷◌, Option, none, some, arith,
  if◌then◌else◌, Bool-cases, Option-cases, inl, inr,
}
use redon.Assoc.{find, erase}
use redon.Storage.{
  Node, Storage, node_at, log_set, log_del, set_memory, set, get_memory, get, del_memory, del,
}
use redon.Storage.Nodes.{find_node, erase_key, find_node-key}
use redon.Storage.Valid.{
  IsValid, SameCache-log_set, SameCache-log_del, SameCache-replicate_del, splice_hit, erase_hit,
  index_hit, index_miss,
}
use redon.Storage.Lru.{entries, touch, value_of, find-entries, entries-erase_key}
use redon.Storage.Lru.Refines.{view, set_in_memory}

-- The entries after a lookup that found `value`.
abbrev pub used : Bytes → Option Bytes → List (Bytes × Bytes) → List (Bytes × Bytes)
used key none l = l
used key (some value) l = touch key value l

-- The number of entries that a DEL of a key with this value removes.
abbrev pub count : Option Bytes → ℕ
count none = 0
count (some value) = 1

get_in_memory : (key : Bytes) (s : Storage) → s.disk ≡ none → get key s ≡ get_memory key s
unfolding get
get_in_memory key s e = ground arith

pub del_in_memory : (key : Bytes) (s : Storage) → s.disk ≡ none → del key s ≡ del_memory key s
unfolding del
del_in_memory key s e = ground arith

module _ (key : Bytes) (s : Storage) (h : IsValid s) where
  view_miss : find_node key s.items ≡ none → find key (view s) ≡ none
  view_miss e = find-entries key s.items ∙ ap value_of e

  view_hit : (n : Node) → find_node key s.items ≡ some n → find key (view s) ≡ some n.value
  view_hit n e = find-entries key s.items ∙ ap value_of e

  get_memory-miss : find_node key s.items ≡ none → get_memory key s ≡ (s, none)
  unfolding get_memory
  get_memory-miss e = ground (arith, index_miss s key h e)

  get_memory-hit :
      (n : Node)
      → find_node key s.items ≡ some n
      → get_memory key s ≡ (record s { items = n ∷ erase_key key s.items }, some n.value)
  unfolding get_memory node_at
  get_memory-hit n e = ground (arith, index_hit s h key n e, splice_hit s h key n e)

  used_hit :
      (n : Node)
      → find_node key s.items ≡ some n
      → entries (n ∷ erase_key key s.items) ≡ touch key n.value (view s)
  unfolding entries
  used_hit n e = rw (find_node-key key s.items n e, entries-erase_key) refl

  pub del_memory-miss : find_node key s.items ≡ none → del_memory key s ≡ (s, 0, true)
  unfolding del_memory
  del_memory-miss e = ground (arith, index_miss s key h e)

  del_memory-hit :
      (n : Node)
      → find_node key s.items ≡ some n
      → (del_memory key s).2 ≡ (log_del key s).1
        × (del_memory key s).1 ≡ (if (log_del key s).1 then 1 else 0)
        × (del_memory key s).0.items
          ≡ (if (log_del key s).1 then erase_key key s.items else s.items)
  unfolding del_memory
  del_memory-hit n e = ground (
    arith,
    index_hit s h key n e,
    (SameCache-log_del key s).items,
    (SameCache-replicate_del key (log_del key s).0).items,
    erase_hit s h key n e,
  )

-- In memory, a GET answers the value of the entry with its key, which becomes the most recently used
-- one; without such an entry it answers nothing and leaves the entries as they are.
pub get-used :
    (key : Bytes) (s : Storage)
    → IsValid s
    → s.disk ≡ none
    → ((get key s).1 ≡ find key (view s))
      × (view (get key s).0 ≡ used key (find key (view s)) (view s))
get-used key s h memory = elim (Option-cases (find_node key s.items)) [
  | inl e ↦
      let ran = get_in_memory key s memory ∙ get_memory-miss key s h e in
      rw (ran, view_miss key s h e) (refl, refl)
  | inr (n, e) ↦
      let ran = get_in_memory key s memory ∙ get_memory-hit key s h n e in
      rw (ran, view_hit key s h n e) (refl, used_hit key s h n e)
]

-- What a DEL leaves of the entries, and what it answers, when `logged` says whether its line is in the
-- log.
pub record Deleted (key : Bytes) (logged : Bool) (s : Storage) (r : Storage × ℕ × Bool)
    : Type 0 where
  pub entries : view r.0 ≡ (if logged then erase key (view s) else view s)
  pub removed : r.1 ≡ (if logged then count (find key (view s)) else 0)
  pub durable : r.2 ≡ logged

-- Whether a DEL has in the log what it needs there, which of a missing key is nothing.
abbrev pub del_logged : Option Bytes → Bool → Bool
del_logged none logged = true
del_logged (some value) logged = logged

erase-missing : (key : Bytes) (l : List (Bytes × Bytes)) → find key l ≡ none → erase key l ≡ l
unfolding find erase
erase-missing key [] e = refl
erase-missing key (p ∷ l) e = ground (arith, erase-missing key l)

-- In memory, a DEL removes the entry with its key, and no other, and answers how many it removed, 0 or
-- 1; when its line cannot be logged it removes none and says that it is not durable.
pub del-Deleted :
    (key : Bytes) (s : Storage)
    → IsValid s
    → s.disk ≡ none
    → Deleted key (del_logged (find key (view s)) (log_del key s).1) s (del key s)
del-Deleted key s h memory = elim (Option-cases (find_node key s.items)) [
  | inl e ↦
      let ran = del_in_memory key s memory ∙ del_memory-miss key s h e in
      rw (ran, view_miss key s h e)
        (record {
          entries = sym (erase-missing key (view s) (view_miss key s h e));
          removed = ap count (sym (view_miss key s h e));
          durable = refl;
        })
  | inr (n, e) ↦
      let (durable, removed, items) = del_memory-hit key s h n e in
      rw (del_in_memory key s memory, view_hit key s h n e)
        (record {
          entries = ap entries items ∙ ground (arith, entries-erase_key key s.items);
          removed = ground (arith, view_hit key s h n e, removed);
          durable = durable;
        })
]

-- In memory, a SET whose line cannot be logged changes no entry, and one whose line is logged is done.
pub set_unlogged :
    (key value : Bytes) (s : Storage)
    → s.disk ≡ none
    → ((set key value s).1 ≡ (log_set key value s).1)
      × ((set key value s).1 ≡ false → view (set key value s).0 ≡ view s)
unfolding set_memory
set_unlogged key value s memory = elim (Bool-cases (log_set key value s).1) [
  | inl e ↦ (
    ground (arith, set_in_memory key value s memory),
    ground (arith, set_in_memory key value s memory),
  )
  | inr e ↦ (
    ground (arith, set_in_memory key value s memory),
    λ _.
        ap (λ r. view r.0) (set_in_memory key value s memory)
        ∙ ground (arith, (SameCache-log_set key value s).items),
  )
]
