-- ===== src/Raft/Majority.antt =====
-- Majorities of the nodes of a cluster of src/raft.cpp, as lists of names.
use redon.Prelude.{
  suc, ◌+◌, ◌≤◌, ◌<◌, ◌≡◌, true, false, Bytes, List, [], ◌∷◌, arith, if◌then◌else◌, bytes_eq,
  bytes_eq_iff, bytes_eq_refl, length, All, Bool-cases, inl, inr,
}
use redon.Raft.{contains}
use redon.Raft.Distinct.{all_distinct}

-- Every name of the first list is one of the second.
abbrev pub Within : List Bytes → List Bytes → Type 0
Within l m = All (λ q. contains q m ≡ true) l

unfoldable remove : Bytes → List Bytes → List Bytes
remove q [] = []
remove q (p ∷ m) = let rest = remove q m in if bytes_eq p q then m else p ∷ rest

length-remove :
    (q : Bytes) (m : List Bytes) → contains q m ≡ true → suc (length (remove q m)) ≡ length m
unfolding remove contains
length-remove q [] h = ground arith
length-remove q (p ∷ m) h = ground (arith, length-remove q m)

contains-remove :
    (x q : Bytes) (m : List Bytes)
    → contains x m ≡ true
    → bytes_eq x q ≡ false
    → contains x (remove q m) ≡ true
unfolding remove contains
contains-remove x q [] h e = ground arith
contains-remove x q (p ∷ m) h e =
    ground (arith, contains-remove x q m, bytes_eq_iff p x, bytes_eq_iff p q, bytes_eq_refl x)

Within-remove :
    (q : Bytes) (l m : List Bytes) → contains q l ≡ false → Within l m → Within l (remove q m)
unfolding contains
Within-remove q [] m e h = tt
Within-remove q (x ∷ l) m e h =
    (contains-remove x q m h.0 (ground (arith, e)), Within-remove q l m (ground (arith, e)) h.1)

length-Within : (l m : List Bytes) → all_distinct l ≡ true → Within l m → length l ≤ length m
unfolding all_distinct
length-Within [] m d h = omega arith
length-Within (q ∷ l) m d h = omega (
  arith,
  length-Within l (remove q m) (ground (arith, d)) (Within-remove q l m (ground (arith, d)) h.1),
  length-remove q m h.0,
)

-- Two lists of distinct members that are together longer than the members share a name.
pub shared_member :
    (a b m : List Bytes)
    → all_distinct a ≡ true
    → all_distinct b ≡ true
    → Within a m
    → Within b m
    → length m < length a + length b
    → (q : Bytes) × (contains q a ≡ true) × (contains q b ≡ true)
unfolding all_distinct contains
shared_member [] b m da db ha hb more = absurd (omega (arith, length-Within b m db hb))
shared_member (x ∷ a) b m da db ha hb more = elim (Bool-cases (contains x b)) [
  | inl e ↦ (x, ground (arith, bytes_eq_refl x), e)
  | inr e ↦
      let (q, in_a, in_b) =
        shared_member a (x ∷ b) m (ground (arith, da)) (ground (arith, db, e)) ha.1 (ha.0, hb)
          (omega (arith, more)) in
      (q, ground (arith, in_a), ground (arith, in_b, in_a, da, bytes_eq_iff x q))
]
