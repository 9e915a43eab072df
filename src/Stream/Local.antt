-- ===== src/Stream/Local.antt =====
-- A reader is local if it reads the same whatever follows the bytes that it takes, and shrinking if
-- it never gives bytes back. A number or a token is local only where it ends before the input.
use redon.Prelude.{
  ℕ, ◌≤◌, ◌≡◌, ◌≢◌, refl, ap, ◌∙◌, Bool, true, false, Bytes, [], ◌∷◌, ◌++◌, Option, none, some,
  arith, length, length-append, length-drop, take-append_le, drop-append_le,
}
use redon.Stream.{Reader, continue, ◌>>=◌, pure, guard, fail, expect, read_bytes}

pub record IsLocal {A : Type 0} (p : Reader A) : Type 0 where
  pub at :
      (s t : Bytes) (a : A) (rest : Bytes) → p s ≡ some (a, rest) → p (s ++ t) ≡ some (a, rest ++ t)
  pub shorter : (s : Bytes) (a : A) (rest : Bytes) → p s ≡ some (a, rest) → length rest ≤ length s

pub record IsDelimited {A : Type 0} (p : Reader A) : Type 0 where
  pub at :
      (s t : Bytes) (a : A) (rest : Bytes)
      → p s ≡ some (a, rest)
      → rest ≢ []
      → p (s ++ t) ≡ some (a, rest ++ t)
  pub shorter : (s : Bytes) (a : A) (rest : Bytes) → p s ≡ some (a, rest) → length rest ≤ length s

-- It fails at the end of the input.
pub record IsEager {A : Type 0} (p : Reader A) : Type 0 where
  pub at_end : p [] ≡ none

pub bind-eq-some :
    {A B : Type 0} (p : Reader A) (f : A → Reader B) (s : Bytes) (b : B) (rest : Bytes)
    → (p >>= f) s ≡ some (b, rest)
    → (a : A) × (more : Bytes) × (p s ≡ some (a, more)) × (f a more ≡ some (b, rest))
unfolding ◌>>=◌
bind-eq-some {A} p f s b rest h = go (p s) refl h
  where
    go :
        (r : Option (A × Bytes))
        → p s ≡ r
        → continue r f ≡ some (b, rest)
        → (a : A) × (more : Bytes) × (p s ≡ some (a, more)) × (f a more ≡ some (b, rest))
    go none e h = cc
    go (some (a, more)) e h = (a, more, e, h)

pub bind_step :
    {A B : Type 0} (p : Reader A) (f : A → Reader B) (s : Bytes) (a : A) (more : Bytes)
    → p s ≡ some (a, more)
    → (p >>= f) s ≡ f a more
unfolding ◌>>=◌
bind_step p f s a more h = rw h

module _ {A B : Type 0} (p : Reader A) (f : A → Reader B) where
  bind_shorter :
      ((s : Bytes) (a : A) (rest : Bytes) → p s ≡ some (a, rest) → length rest ≤ length s)
      → ((a : A) → IsLocal (f a))
      → (s : Bytes) (b : B) (rest : Bytes) → (p >>= f) s ≡ some (b, rest)
      → length rest ≤ length s
  bind_shorter hp hf s b rest h =
      let (a, more, e, e') = bind-eq-some p f s b rest h in
      omega (arith, hp s a more e, (hf a).shorter more b rest e')

  pub IsLocal-bind : IsLocal p → ((a : A) → IsLocal (f a)) → IsLocal (p >>= f)
  IsLocal-bind hp hf = record {
    at = λ s t b rest h.
        let (a, more, e, e') = bind-eq-some p f s b rest h in
        bind_step p f (s ++ t) a (more ++ t) (hp.at s t a more e) ∙ (hf a).at more t b rest e';
    shorter = bind_shorter hp.shorter hf;
  }

  pub IsLocal-bind_delimited :
      IsDelimited p → ((a : A) → IsLocal (f a)) → ((a : A) → IsEager (f a)) → IsLocal (p >>= f)
  IsLocal-bind_delimited hp hf he = record {
    at = λ s t b rest h.
        let (a, more, e, e') = bind-eq-some p f s b rest h in
        let ne : more ≢ [] = λ q. cc (ap (f a) q, (he a).at_end, e') in
        bind_step p f (s ++ t) a (more ++ t) (hp.at s t a more e ne) ∙ (hf a).at more t b rest e';
    shorter = bind_shorter hp.shorter hf;
  }

  pub IsEager-bind : IsEager p → IsEager (p >>= f)
  unfolding ◌>>=◌
  IsEager-bind hp = record { at_end = rw hp.at_end }

module _ {A : Type 0} where
  pub IsLocal-pure : (a : A) → IsLocal (pure a)
  unfolding pure
  IsLocal-pure a = record {
    at = λ s t b rest h. ground arith;
    shorter = λ s b rest h. ground arith;
  }

  pub IsLocal-fail : IsLocal (fail {A = A})
  unfolding fail
  IsLocal-fail = record { at = λ s t b rest h. cc; shorter = λ s b rest h. cc }

pub IsLocal-guard : (b : Bool) → IsLocal (guard b)
unfolding guard
IsLocal-guard b = record { at = λ s t u rest h. ground arith; shorter = λ s u rest h. ground arith }

pub IsLocal-expect : (c : ℕ) → IsLocal (expect c)
IsLocal-expect c = record { at = at; shorter = shorter }
  where
    at :
        (s t : Bytes) (a : Unit) (rest : Bytes)
        → expect c s ≡ some (a, rest)
        → expect c (s ++ t) ≡ some (a, rest ++ t)
    at [] t a rest h = unfold expect in cc
    at (b ∷ s) t a rest h = unfold expect in ground arith

    shorter :
        (s : Bytes) (a : Unit) (rest : Bytes) → expect c s ≡ some (a, rest) → length rest ≤ length s
    shorter [] a rest h = unfold expect in cc
    shorter (b ∷ s) a rest h = unfold expect in ground arith

pub IsEager-expect : (c : ℕ) → IsEager (expect c)
unfolding expect
IsEager-expect c = record { at_end = refl }

pub IsLocal-read_bytes : (n : ℕ) → IsLocal (read_bytes n)
unfolding read_bytes
IsLocal-read_bytes n = record {
  at =
      λ s t a rest h. ground (arith, length-append s t, take-append_le n s t, drop-append_le n s t);
  shorter = λ s a rest h. ground (arith, length-drop n s);
}

pub IsEager-guard_bind :
    {B : Type 0} (b : Bool) (f : Unit {0} → Reader B) → IsEager (f tt) → IsEager (guard b >>= f)
IsEager-guard_bind true f h = unfold ◌>>=◌ guard in h
IsEager-guard_bind false f h = record { at_end = unfold ◌>>=◌ guard in refl }
