-- ===== src/Storage/Unbounded.antt =====
-- The store of src/storage.cpp without a log, a disk engine or a bound, as a map.
use redon.Prelude.{
  ◌≡◌, refl, ap, sym, ◌∙◌, Bool, true, Bytes, List, Option, none, some, arith, bytes_eq,
  bytes_eq_iff, Option-cases, inl, inr, if◌then◌else◌,
}
use mathlib.Core.Path.{subst}
use redon.Assoc.{find, find-erase}
use redon.Storage.{Storage, log_del, set, del}
use redon.Storage.Valid.{IsValid}
use redon.Storage.Alone.{Alone, Alone-set_logged, set-Alone, Alone-del, log_del-Alone}
use redon.Storage.Keeps.{set-IsValid, del-IsValid}
use redon.Storage.Lru.{touch, wal_ok}
use redon.Storage.Lru.Refines.{view, set-touch}
use redon.Storage.Lru.Reads.{used, Deleted, del_logged, del-Deleted}

pub find-touch :
    (key value k : Bytes) (l : List (Bytes × Bytes))
    → find k (touch key value l) ≡ (if bytes_eq key k then some value else find k l)
unfolding find
find-touch key value k l = ground (arith, find-erase key k l)

pub find-used :
    (key k : Bytes) (l : List (Bytes × Bytes)) → find k (used key (find key l) l) ≡ find k l
find-used key k l = elim (Option-cases (find key l)) [
  | inl e ↦ rw (e, used) refl
  | inr (v, e) ↦ rw (e, used) (find-touch key v k l ∙ ground (arith, bytes_eq_iff key k, e))
]

module _ (b : Bool) where
  pub record IsUnbounded (s : Storage) : Type 0 where
    pub valid : IsValid s
    pub alone : Alone 0 b s

  pub set-IsUnbounded :
      (key value : Bytes) (s : Storage) → IsUnbounded s → IsUnbounded (set key value s).0
  set-IsUnbounded key value s h = record {
    valid = set-IsValid key value s h.valid;
    alone =
        subst (Alone 0 b) (sym (ap (λ r. r.0) (set-Alone 0 b key value s h.alone)))
          (Alone-set_logged 0 b key value s h.alone);
  }

  pub del-IsUnbounded : (key : Bytes) (s : Storage) → IsUnbounded s → IsUnbounded (del key s).0
  del-IsUnbounded key s h = record {
    valid = del-IsValid key s h.valid;
    alone = Alone-del 0 b key s h.alone;
  }

  pub find-set :
      (key value k : Bytes) (s : Storage)
      → IsUnbounded s
      → find k (view (set key value s).0) ≡ (if bytes_eq key k then some value else find k (view s))
  find-set key value k s h =
      let ran = set-Alone 0 b key value s h.alone in
      let alone = Alone-set_logged 0 b key value s h.alone in
      let seen : view (set key value s).0 ≡ touch key value (view s) =
        set-touch key value s h.valid (λ live pos. absurd (omega (arith, h.alone.bound)))
          h.alone.disk (ap (λ r. r.1) ran) (ap (λ r. wal_ok r.0.wal) ran ∙ ap wal_ok alone.wal)
        ∙ ground (arith, h.alone.bound) in
      ap (find k) seen ∙ find-touch key value k (view s)

  logged :
      (k : Bytes) (s : Storage) (o : Option Bytes)
      → Alone 0 b s
      → del_logged o (log_del k s).1 ≡ true
  logged k s none h = refl
  logged k s (some v) h = log_del-Alone 0 b k s h

  pub find-del :
      (key k : Bytes) (s : Storage)
      → IsUnbounded s
      → find k (view (del key s).0) ≡ (if bytes_eq key k then none else find k (view s))
  find-del key k s h =
      let d =
        subst (λ x. Deleted key x s (del key s)) (logged key s (find key (view s)) h.alone)
          (del-Deleted key s h.valid h.alone.disk) in
      ap (find k) d.entries ∙ find-erase key k (view s)
