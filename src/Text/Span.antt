-- ===== src/Text/Span.antt =====
-- The loop `while (i < s.size() && test(s[i])) ++i;`, on the unread suffix.
use redon.Prelude.{
  ℕ, ◌≡◌, ◌≢◌, refl, Bool, true, false, Bytes, [], ◌∷◌, ◌++◌, arith, if◌then◌else◌, length, ◌+◌,
}

module _ (test : ℕ → Bool) where
  unfoldable pub span : Bytes → Bytes × Bytes
  span [] = ([], [])
  span (c ∷ s) = let rest = span s in if test c then (c ∷ rest.0, rest.1) else ([], c ∷ s)

  abbrev pub Every : Bytes → Type 0
  Every [] = Unit
  Every (c ∷ s) = (test c ≡ true) × Every s

  -- A scan that stops before the end stops there whatever follows.
  pub span-append : (s t : Bytes) → (span s).1 ≢ [] → span (s ++ t) ≡ ((span s).0, (span s).1 ++ t)
  unfolding span
  span-append [] t h = absurd (h refl)
  span-append (c ∷ s) t h = ground (arith, span-append s t)

  pub span_stop : (s t : Bytes) (c : ℕ) → Every s → test c ≡ false → span (s ++ c ∷ t) ≡ (s, c ∷ t)
  unfolding span
  span_stop [] t c h e = ground arith
  span_stop (b ∷ s) t c h e = ground (arith, span_stop s t c)

  pub span_all : (s : Bytes) → Every s → span s ≡ (s, [])
  unfolding span
  span_all [] h = refl
  span_all (b ∷ s) h = ground (arith, span_all s)

  pub append-span : (s : Bytes) → (span s).0 ++ (span s).1 ≡ s
  unfolding span
  append-span [] = refl
  append-span (c ∷ s) = ground (arith, append-span s)

  pub length-span : (s : Bytes) → length (span s).0 + length (span s).1 ≡ length s
  unfolding span
  length-span [] = refl
  length-span (c ∷ s) = ground (arith, length-span s)

  pub Every-span : (s : Bytes) → Every (span s).0
  unfolding span
  Every-span [] = tt
  Every-span (c ∷ s) = ground (arith, Every-span s)
