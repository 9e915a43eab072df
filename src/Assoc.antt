-- ===== src/Assoc.antt =====
-- A `std::unordered_map<std::string, V>`: an association list whose order the program never uses.
use redon.Prelude.{
  suc, ◌≡◌, refl, Bytes, List, [], ◌∷◌, Option, none, some, arith, bytes_eq, bytes_eq_iff,
  if◌then◌else◌, length, All, Bool-cases, inl, inr, sym,
}
use mathlib.Core.Path.{subst}

module _ {ℓ} {V : Type ℓ} where
  -- `m.find(k)`
  unfoldable pub find : Bytes → List (Bytes × V) → Option V
  find k [] = none
  find k ((j, v) ∷ m) = if bytes_eq j k then some v else find k m

  -- `m[k] = v`
  unfoldable pub assign : Bytes → V → List (Bytes × V) → List (Bytes × V)
  assign k v [] = (k, v) ∷ []
  assign k v ((j, w) ∷ m) =
      let rest = assign k v m in if bytes_eq j k then (j, v) ∷ m else (j, w) ∷ rest

  -- `m.erase(k)`
  unfoldable pub erase : Bytes → List (Bytes × V) → List (Bytes × V)
  erase k [] = []
  erase k ((j, w) ∷ m) = let rest = erase k m in if bytes_eq j k then rest else (j, w) ∷ rest

  pub find-assign :
      (k j : Bytes) (v : V) (m : List (Bytes × V))
      → find j (assign k v m) ≡ (if bytes_eq k j then some v else find j m)
  unfolding find assign
  find-assign k j v [] = refl
  find-assign k j v ((i, w) ∷ m) =
      ground (arith, bytes_eq_iff i k, bytes_eq_iff i j, bytes_eq_iff k j, find-assign k j v m)

  pub find-erase :
      (k j : Bytes) (m : List (Bytes × V))
      → find j (erase k m) ≡ (if bytes_eq k j then none else find j m)
  unfolding find erase
  find-erase k j [] = ground arith
  find-erase k j ((i, w) ∷ m) =
      ground (arith, bytes_eq_iff i k, bytes_eq_iff i j, bytes_eq_iff k j, find-erase k j m)

  pub erase_absent : (k : Bytes) (m : List (Bytes × V)) → find k m ≡ none → erase k m ≡ m
  unfolding find erase
  erase_absent k [] h = refl
  erase_absent k ((i, w) ∷ m) h = ground (arith, erase_absent k m)

  -- No key occurs twice.
  abbrev pub Distinct : List (Bytes × V) → Type ℓ
  Distinct [] = Unit
  Distinct ((k, v) ∷ m) = (find k m ≡ none) × Distinct m

  pub Distinct-assign :
      (k : Bytes) (v : V) (m : List (Bytes × V)) → Distinct m → Distinct (assign k v m)
  unfolding assign find
  Distinct-assign k v [] d = (refl, tt)
  Distinct-assign k v ((j, w) ∷ m) d =
      ground
        (arith, Distinct-assign k v m d.1, find-assign k j v m, bytes_eq_iff j k, bytes_eq_iff k j)

  pub Distinct-erase : (k : Bytes) (m : List (Bytes × V)) → Distinct m → Distinct (erase k m)
  unfolding erase find
  Distinct-erase k [] d = tt
  Distinct-erase k ((j, w) ∷ m) d = ground (arith, Distinct-erase k m d.1, find-erase k j m)

  pub length-assign_new :
      (k : Bytes) (v : V) (m : List (Bytes × V))
      → find k m ≡ none
      → length (assign k v m) ≡ suc (length m)
  unfolding find assign
  length-assign_new k v [] h = refl
  length-assign_new k v ((i, w) ∷ m) h = ground (arith, length-assign_new k v m)

  pub length-erase :
      (k : Bytes) (v : V) (m : List (Bytes × V))
      → Distinct m
      → find k m ≡ some v
      → suc (length (erase k m)) ≡ length m
  unfolding find erase
  length-erase k v [] d h = cc
  length-erase k v ((i, w) ∷ m) d h =
      ground (arith, bytes_eq_iff i k, erase_absent k m, length-erase k v m)

-- What holds of every entry holds after an assignment of one that it holds of, and after an erasure.
module _ {ℓ κ} {V : Type ℓ} (P : Bytes × V → Type κ) where
  pub All-assign :
      (k : Bytes) (v : V) (m : List (Bytes × V)) → P (k, v) → All P m → All P (assign k v m)
  unfolding assign
  All-assign k v [] h hs = (h, tt)
  All-assign k v ((j, w) ∷ m) h hs = elim (Bool-cases (bytes_eq j k)) [
    | inl e ↦ rw e (subst (λ i. P (i, v)) (sym ((bytes_eq_iff j k).0 e)) h, hs.1)
    | inr e ↦ rw e (hs.0, All-assign k v m h hs.1)
  ]

  pub All-erase : (k : Bytes) (m : List (Bytes × V)) → All P m → All P (erase k m)
  unfolding erase
  All-erase k [] hs = tt
  All-erase k ((j, w) ∷ m) hs = elim (Bool-cases (bytes_eq j k)) [
    | inl e ↦ rw e (All-erase k m hs.1)
    | inr e ↦ rw e (hs.0, All-erase k m hs.1)
  ]
