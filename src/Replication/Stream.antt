-- ===== src/Replication/Stream.antt =====
-- What the methods of src/storage.cpp do to the map of the leader and to the links, side by side.
use redon.Prelude.{
  ℕ, zero, suc, ◌≡◌, refl, ap, sym, ◌∙◌, Bool, true, false, not, ◌&&◌, Bytes, Option, none, some,
  arith, bytes_eq, bytes_eq_iff, if◌then◌else◌, Bool-cases, Option-cases, inl, inr,
}
use mathlib.Core.Path.{subst}
use mathlib.Core.Option.{some-injective}
use redon.Assoc.{find, erase, find-erase}
use redon.Wal.{LogRecord}
use redon.Wal.View.{view_record}
use redon.Replication
use redon.Replication.{Replicator, enqueue}
use redon.Replication.Lines.{line_of, IsClean}
use redon.Command.Parse.{IsWord, IsValue}
use redon.Storage.{
  Node, Storage, back, log_set, log_del, replicate_set, replicate_del, drop_back, evict_lru_locked,
  evict_loop, set_existing, insert_front, set_new, set_logged, set_memory, set, get_memory, get,
  del_memory, del, over_capacity,
}
use redon.Storage.Nodes.{find_node, pop_back-erase_key}
use redon.Storage.Valid.{
  IsValid, SameCache-IsValid, SameCache-log_set, evict_true, evict_false, evict-IsValid, index_miss,
  index_hit,
}
use redon.Storage.Unbounded.{find-touch, find-used}
use redon.Storage.Lru.{entries, entries-erase_key, find-entries, value_of}
use redon.Storage.Lru.Refines.{view, existing_view, inserted_view, inserted-IsValid, set_in_memory}
use redon.Storage.Lru.Reads.{get-used, del_in_memory, del_memory-miss, del_logged, del-Deleted}

-- The links once a record is queued.
abbrev pub pushed : LogRecord → Option Replicator → Option Replicator
pushed r none = none
pushed r (some x) = some (enqueue (line_of r) x)

-- A store that changed: each change of its map was queued for the followers, in order, and nothing else.
pub data Changes : Storage → Storage → Type 0 where
  quiet :
      (s t : Storage)
      → t.replicator ≡ s.replicator
      → ((k : Bytes) → find k (view t) ≡ find k (view s))
      → Changes s t
  moved :
      (r : LogRecord) (s t : Storage)
      → IsClean r
      → t.replicator ≡ pushed r s.replicator
      → ((k : Bytes) → find k (view t) ≡ view_record r k (find k (view s)))
      → Changes s t
  both : {s t u : Storage} → Changes s t → Changes t u → Changes s u

-- Every entry can be sent.
abbrev pub IsSendable : Storage → Type 0
IsSendable s = (k v : Bytes) → find k (view s) ≡ some v → IsClean (LogRecord.set k v)

sendable_record :
    (r : LogRecord) (k v : Bytes) (o : Option Bytes)
    → IsClean r
    → (o ≡ some v → IsClean (LogRecord.set k v))
    → view_record r k o ≡ some v
    → IsClean (LogRecord.set k v)
sendable_record (LogRecord.set k' v') k v o c h = elim (Bool-cases (bytes_eq k' k)) [
  | inl e ↦
      rw e (λ z.
        (subst IsWord ((bytes_eq_iff k' k).0 e) c.0, subst IsValue (some-injective v' v z) c.1))
  | inr e ↦ rw e h
]
sendable_record (LogRecord.del k') k v o c h = elim (Bool-cases (bytes_eq k' k)) [
  | inl e ↦ rw e (λ z. absurd (ground arith))
  | inr e ↦ rw e h
]

pub Changes-IsSendable : {s t : Storage} → Changes s t → IsSendable s → IsSendable t
Changes-IsSendable (quiet s t same seen) h = λ k v e. h k v (sym (seen k) ∙ e)
Changes-IsSendable (moved r s t c same seen) h =
    λ k v e. sendable_record r k v (find k (view s)) c (h k v) (sym (seen k) ∙ e)
Changes-IsSendable (both p q) h = Changes-IsSendable q (Changes-IsSendable p h)

replicator-log_set : (k v : Bytes) (s : Storage) → (log_set k v s).0.replicator ≡ s.replicator
unfolding log_set
replicator-log_set k v s = ground arith

replicator-log_del : (k : Bytes) (s : Storage) → (log_del k s).0.replicator ≡ s.replicator
unfolding log_del
replicator-log_del k s = ground arith

evict_kept :
    (s : Storage)
    → (evict_lru_locked true s).1 ≡ false
    → (evict_lru_locked true s).0.replicator ≡ s.replicator
unfolding evict_lru_locked log_del
evict_kept s h = ground arith

evict_pushed :
    (s : Storage) (n : Node)
    → back s.items ≡ some n
    → (evict_lru_locked true s).1 ≡ true
    → (evict_lru_locked true s).0.replicator ≡ pushed (LogRecord.del n.key) s.replicator
unfolding evict_lru_locked replicate_del drop_back Replication.replicate_del line_of
evict_pushed s n e h = ground (arith, replicator-log_del n.key s)

evict-Changes : (s : Storage) → IsValid s → IsSendable s → Changes s (evict_lru_locked true s).0
evict-Changes s h c = elim (Bool-cases (evict_lru_locked true s).1) [
  | inl e ↦
      let (n, last, d) = evict_true true s e in
      let (found, erased) = pop_back-erase_key s.items n h.keys last in
      let (word, value) = c n.key n.value (find-entries n.key s.items ∙ ap value_of found) in
      moved (LogRecord.del n.key) s _ word (evict_pushed s n last e) (λ k.
        ap (λ l. find k (entries l)) (d.items ∙ erased)
        ∙ ap (find k) (entries-erase_key n.key s.items)
        ∙ find-erase n.key k (view s))
  | inr e ↦
      quiet s _ (evict_kept s e) (λ k. ap (λ l. find k (entries l)) (evict_false true s e).items)
]

evict_loop-Changes :
    (test : Storage → Bool) (fuel : ℕ) (s : Storage)
    → IsValid s
    → IsSendable s
    → Changes s (evict_loop test true fuel s)
unfolding evict_loop
evict_loop-Changes test zero s h c = quiet s s refl (λ k. refl)
evict_loop-Changes test (suc fuel) s h c =
    let t = (evict_lru_locked true s).0 in
    let one : Changes s t = evict-Changes s h c in
    elim (Bool-cases (test s)) [
      | inl e ↦ elim (Bool-cases (evict_lru_locked true s).1) [
        | inl e' ↦
            rw (e, e')
              (both one (
                evict_loop-Changes test fuel t (evict-IsValid true s h) (Changes-IsSendable one c)))
        | inr e' ↦ rw (e, e') one
      ]
      | inr e ↦ rw e (quiet s s refl (λ k. refl))
    ]

module _ (key value : Bytes) (s : Storage) (h : IsValid s) (c : IsSendable s) (hk : IsWord key)
    (hv : IsValue value) where
  existing_pushed :
      (n : Node)
      → (set_existing key value n.id s).replicator ≡ pushed (LogRecord.set key value) s.replicator
  unfolding set_existing replicate_set Replication.replicate_set line_of
  existing_pushed n = ground arith

  inserted_pushed :
      (replicate_set key value (insert_front key value s)).replicator
      ≡ pushed (LogRecord.set key value) s.replicator
  unfolding insert_front replicate_set Replication.replicate_set line_of
  inserted_pushed = ground arith

  set_existing-Changes :
      (n : Node) → find_node key s.items ≡ some n → Changes s (set_existing key value n.id s)
  set_existing-Changes n e =
      moved (LogRecord.set key value) s _ (hk, hv) (existing_pushed n)
        (λ k. ap (find k) (existing_view key value s h n e) ∙ find-touch key value k (view s))

  set_new-Changes : find_node key s.items ≡ none → Changes s (set_new key value s)
  unfolding set_new
  set_new-Changes e =
      let t = replicate_set key value (insert_front key value s) in
      let one : Changes s t =
        moved (LogRecord.set key value) s t (hk, hv) inserted_pushed
          (λ k. ap (find k) (inserted_view key value s h e) ∙ find-touch key value k (view s)) in
      both one (
        evict_loop-Changes (λ u. not u.replaying && over_capacity u) _ t
          (inserted-IsValid key value s h e) (Changes-IsSendable one c))

  set_logged-Changes : Changes s (set_logged key value s)
  unfolding set_logged
  set_logged-Changes = elim (Option-cases (find_node key s.items)) [
    | inl e ↦ rw (index_miss s key h e, set_logged) (set_new-Changes e)
    | inr (n, e) ↦ rw (index_hit s h key n e, set_logged) (set_existing-Changes n e)
  ]

-- SET: what it does to the map of an in-memory leader is what it queues, evictions included.
pub set-Changes :
    (key value : Bytes) (s : Storage)
    → IsValid s
    → s.disk ≡ none
    → IsSendable s
    → IsWord key
    → IsValue value
    → Changes s (set key value s).0
unfolding set_memory
set-Changes key value s h memory c hk hv =
    let t = (log_set key value s).0 in
    let same = SameCache-log_set key value s in
    let one : Changes s t =
      quiet s t (replicator-log_set key value s) (λ k. ap (λ l. find k (entries l)) same.items) in
    let rest : Changes s (set_logged key value t) = both one (
      set_logged-Changes key value t (SameCache-IsValid s t same h) (Changes-IsSendable one c) hk
        hv) in
    rw (set_in_memory key value s memory)
      (elim (Bool-cases (log_set key value s).1) [ inl e ↦ rw e rest | inr e ↦ rw e one ])

replicator-get :
    (key : Bytes) (s : Storage) → s.disk ≡ none → (get key s).0.replicator ≡ s.replicator
unfolding get get_memory
replicator-get key s e = ground arith

pub get-Changes : (key : Bytes) (s : Storage) → IsValid s → s.disk ≡ none → Changes s (get key s).0
get-Changes key s h memory =
    quiet s _ (replicator-get key s memory)
      (λ k. ap (find k) (get-used key s h memory).1 ∙ find-used key k (view s))

del-pushed :
    (key : Bytes) (s : Storage)
    → s.disk ≡ none
    → (id : ℕ) → find key s.index ≡ some id
    → (del key s).0.replicator
      ≡ (if (log_del key s).1 then pushed (LogRecord.del key) s.replicator else s.replicator)
unfolding del del_memory replicate_del Replication.replicate_del line_of
del-pushed key s memory id e = ground (arith, replicator-log_del key s)

-- DEL: the removal of the entry is what it queues.
pub del-Changes :
    (key : Bytes) (s : Storage) → IsValid s → s.disk ≡ none → IsWord key → Changes s (del key s).0
del-Changes key s h memory hk = elim (Option-cases (find_node key s.items)) [
  | inl e ↦ rw (del_in_memory key s memory ∙ del_memory-miss key s h e) (quiet s s refl (λ k. refl))
  | inr (n, e) ↦
      let there : find key (view s) ≡ some n.value = find-entries key s.items ∙ ap value_of e in
      let d = del-Deleted key s h memory in
      let queued = del-pushed key s memory n.id (index_hit s h key n e) in
      let entries : view (del key s).0
          ≡ (if (log_del key s).1 then erase key (view s) else view s) =
        d.entries
        ∙ ap (λ o. if del_logged o (log_del key s).1 then erase key (view s) else view s) there in
      elim (Bool-cases (log_del key s).1) [
        | inl yes_logged ↦
            moved (LogRecord.del key) s _ hk (queued ∙ ground (arith, yes_logged))
              (λ k. ap (find k) (entries ∙ ground (arith, yes_logged)) ∙ find-erase key k (view s))
        | inr not_logged ↦
            quiet s _ (queued ∙ ground (arith, not_logged))
              (λ k. ap (find k) (entries ∙ ground (arith, not_logged)))
      ]
]
