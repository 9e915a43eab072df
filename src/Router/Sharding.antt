-- ===== src/Router/Sharding.antt =====
-- The shards that src/router.cpp chooses for the keys.
use redon.Prelude.{ℕ, zero, suc, ◌^◌, ◌<◌, ◌≡◌, refl, Bytes, [], ◌∷◌, foldl, arith, some, length}
use redon.Router.{fnv_step, fnv1a, Router, shard_for, shard_at, Dial, forward_to, forward}

shard_for-lt : (r : Router) (key : Bytes) → 0 < length r → shard_for r key < length r
unfolding shard_for
shard_for-lt [] key h = absurd (omega arith)
shard_for-lt (s ∷ ss) key h = omega arith

shard_at_lt : (r : Router) (i : ℕ) → i < length r → (s : Bytes) × (shard_at r i ≡ some s)
unfolding shard_at
shard_at_lt [] i h = absurd (omega arith)
shard_at_lt (s ∷ ss) zero h = (s, refl)
shard_at_lt (s ∷ ss) (suc i) h = shard_at_lt ss i (omega arith)

-- With a shard to choose from, a line is forwarded to the shard of its key, which exists: the answer
-- that there is no such shard is never given.
pub forward-shard_for :
    (dial : Dial) (r : Router) (key line : Bytes)
    → 0 < length r
    → (s : Bytes) × (shard_at r (shard_for r key) ≡ some s)
      × (forward dial r (shard_for r key) line ≡ forward_to dial s line)
unfolding forward
forward-shard_for dial r key line h =
    let (s, e) = shard_at_lt r (shard_for r key) (shard_for-lt r key h) in
    (s, e, rw (e, forward) refl)

fnv_step-lt : (h c : ℕ) → fnv_step h c < 2 ^ 64
unfolding fnv_step
fnv_step-lt h c = omega arith

fold-lt : (s : Bytes) (h : ℕ) → h < 2 ^ 64 → foldl fnv_step h s < 2 ^ 64
fold-lt [] h le = le
fold-lt (c ∷ s) h le = fold-lt s (fnv_step h c) (fnv_step-lt h c)

-- The hash stays a 64-bit word.
pub fnv1a-lt : (s : Bytes) → fnv1a s < 2 ^ 64
unfolding fnv1a
fnv1a-lt s = fold-lt s 1469598103934665603 (omega arith)
