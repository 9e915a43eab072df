-- ===== src/Storage/Lru/Evict.antt =====
-- The eviction loop of src/storage.cpp.
use mathlib.Core.Path.{ap₂}
use mathlib.Core.Bool.{false≢true}
use redon.Prelude.{
  ℕ, zero, suc, ◌≤◌, ◌<◌, ◌≡◌, refl, ap, sym, ◌∙◌, Bool, true, false, not, ◌&&◌, List, [], ◌∷◌,
  some, arith, take, take_of_length-le, length, Bool-cases, inl, inr,
}
use redon.Wal
use redon.Storage.{
  Node, Storage, back, pop_back, log_del, evict_lru_locked, evict_loop, over_capacity,
}
use redon.Storage.Nodes.{back-cons}
use redon.Storage.Valid.{IsValid, Dropped, evict_true, evict-IsValid}
use redon.Storage.Lru.{wal_ok}

abbrev pub live_test : Storage → Bool
live_test s = not s.replaying && over_capacity s

take-pop_back : (m : ℕ) (l : List Node) → m < length l → take m (pop_back l) ≡ take m l
unfolding pop_back
take-pop_back zero l h = refl
take-pop_back (suc m) [] h = absurd (omega arith)
take-pop_back (suc m) (n ∷ []) h = absurd (omega arith)
take-pop_back (suc m) (n ∷ n' ∷ l) h = ap (◌∷◌ n) (take-pop_back m (n' ∷ l) (omega arith))

back_of_pos : (l : List Node) → 0 < length l → (n : Node) × (back l ≡ some n)
back_of_pos [] h = absurd (omega arith)
back_of_pos (n ∷ l) h = back-cons n l

length-pop_back : (l : List Node) → 0 < length l → suc (length (pop_back l)) ≡ length l
unfolding pop_back
length-pop_back [] h = absurd (omega arith)
length-pop_back (n ∷ []) h = refl
length-pop_back (n ∷ n' ∷ l) h = ap suc (length-pop_back (n' ∷ l) (omega arith))

-- With something to evict, only the log can stop an eviction.
evict_stopped :
    (s : Storage) (n : Node)
    → back s.items ≡ some n
    → (evict_lru_locked true s).1 ≡ false
    → wal_ok (evict_lru_locked true s).0.wal ≡ false
unfolding evict_lru_locked log_del Wal.append_del
evict_stopped s n e h = ground arith

module _ (fuel : ℕ) (s : Storage) where
  loop_done : live_test s ≡ false → evict_loop live_test true (suc fuel) s ≡ s
  unfolding evict_loop
  loop_done e = rw e

  loop_stop :
      live_test s ≡ true
      → (evict_lru_locked true s).1 ≡ false
      → evict_loop live_test true (suc fuel) s ≡ (evict_lru_locked true s).0
  unfolding evict_loop
  loop_stop e e' = rw (e, e')

  loop_more :
      live_test s ≡ true
      → (evict_lru_locked true s).1 ≡ true
      → evict_loop live_test true (suc fuel) s
        ≡ evict_loop live_test true fuel (evict_lru_locked true s).0
  unfolding evict_loop
  loop_more e e' = rw (e, e')

over_size : (s : Storage) → IsValid s → live_test s ≡ true → s.capacity < length s.items
unfolding over_capacity
over_size s h e = ground (arith, h.sizes)

under_size :
    (s : Storage)
    → IsValid s
    → s.replaying ≡ false
    → 0 < s.capacity
    → live_test s ≡ false
    → length s.items ≤ s.capacity
unfolding over_capacity
under_size s h live pos e = ground (arith, h.sizes)

abbrev Cut : ℕ → Storage → Type 0
Cut fuel s = (evict_loop live_test true fuel s).items ≡ take s.capacity s.items

Cut-more :
    (fuel : ℕ) (s t : Storage) (n : Node)
    → IsValid s
    → Dropped n s t
    → s.capacity < length s.items
    → Cut fuel t
    → (evict_loop live_test true fuel t).items ≡ take s.capacity s.items
Cut-more fuel s t n h d over cut =
    cut ∙ ap₂ take d.capacity d.items ∙ take-pop_back s.capacity s.items over

cut_fuel :
    (fuel : ℕ) (s t : Storage) (n : Node)
    → IsValid s
    → IsValid t
    → Dropped n s t
    → s.capacity < length s.items
    → length s.index ≤ suc fuel
    → length t.index ≤ fuel
cut_fuel fuel s t n h h' d over enough =
    omega (arith, h.sizes, h'.sizes, ap length d.items, length-pop_back s.items (omega arith))

-- On a valid store that is live and bounded, with as much fuel as the index is long, the loop leaves
-- the `capacity` most recently used nodes, unless a write of the log has failed.
pub evict_loop-take :
    (fuel : ℕ) (s : Storage)
    → IsValid s
    → s.replaying ≡ false
    → 0 < s.capacity
    → length s.index ≤ fuel
    → wal_ok (evict_loop live_test true fuel s).wal ≡ true
    → Cut fuel s
evict_loop-take zero s h live pos enough good =
    unfold evict_loop in sym (take_of_length-le s.capacity s.items (omega (arith, h.sizes)))
evict_loop-take (suc fuel) s h live pos enough good = elim (Bool-cases (live_test s)) [
  | inr under ↦
      ap (λ t. t.items) (loop_done fuel s under)
      ∙ sym (take_of_length-le s.capacity s.items (under_size s h live pos under))
  | inl over ↦
      let t = (evict_lru_locked true s).0 in
      elim (Bool-cases (evict_lru_locked true s).1) [
        | inr e ↦
            let (n, last) = back_of_pos s.items (omega (arith, over_size s h over)) in
            absurd (
              false≢true (
                sym (
                  ap (λ (u : Storage). wal_ok u.wal) (loop_stop fuel s over e)
                  ∙ evict_stopped s n last e)
                ∙ good))
        | inl e ↦
            let (n, last, d) = evict_true true s e in
            let ht = evict-IsValid true s h in
            let big = over_size s h over in
            let more = loop_more fuel s over e in
            ap (λ u. u.items) more
            ∙ Cut-more fuel s t n h d big (
                evict_loop-take fuel t ht (d.replaying ∙ live) (omega (arith, d.capacity))
                  (cut_fuel fuel s t n h ht d big enough)
                  (sym (ap (λ (u : Storage). wal_ok u.wal) more) ∙ good))
      ]
]

-- A loop whose test fails does nothing.
pub evict_loop_off :
    (fuel : ℕ) (s : Storage) → live_test s ≡ false → evict_loop live_test true fuel s ≡ s
evict_loop_off zero s e = unfold evict_loop in refl
evict_loop_off (suc fuel) s e = loop_done fuel s e
