-- ===== src/Text/Address/Words.antt =====
-- The words of a line of three.
use redon.Prelude.{
  ℕ, suc, ◌≡◌, ◌≢◌, refl, ap, ◌∙◌, false, not, Bytes, [], ◌∷◌, ◌++◌, arith, is_empty,
}
use redon.Text.{is_space, skip_space, span_token}
use redon.Text.Span.{span, Every, span_stop, span_all}
use redon.Text.Address.{tokens_loop}

abbrev pub Plain : Bytes → Type 0
Plain s = (s ≢ []) × Every (λ c. not (is_space c)) s

skip_space-Plain_append : (s t : Bytes) → Plain s → skip_space (s ++ t) ≡ s ++ t
unfolding skip_space span
skip_space-Plain_append [] t h = absurd (h.0 refl)
skip_space-Plain_append (c ∷ s) t h = ground (arith, h.1)

is_empty-Plain : (s : Bytes) → Plain s → is_empty s ≡ false
is_empty-Plain [] h = absurd (h.0 refl)
is_empty-Plain (c ∷ s) h = refl

word_first :
    (f : ℕ) (s t : Bytes)
    → Plain s
    → tokens_loop (suc f) (s ++ b' ' ∷ t) ≡ s ∷ tokens_loop f (b' ' ∷ t)
unfolding tokens_loop span_token
word_first f s t h =
    rw
      (
        skip_space-Plain_append s (b' ' ∷ t) h,
        span_stop _ s t b' ' h.1 (unfold is_space in refl),
        is_empty-Plain s h,
      )
      refl

word_blank : (f : ℕ) (t : Bytes) → tokens_loop (suc f) (b' ' ∷ t) ≡ tokens_loop (suc f) t
unfolding tokens_loop skip_space span is_space
word_blank f t = refl

skip_space-Plain : (s : Bytes) → Plain s → skip_space s ≡ s
unfolding skip_space span
skip_space-Plain [] h = refl
skip_space-Plain (c ∷ s) h = ground (arith, h.1)

word_last : (f : ℕ) (s : Bytes) → Plain s → tokens_loop (suc (suc f)) s ≡ s ∷ []
unfolding tokens_loop span_token skip_space span
word_last f s h = rw (skip_space-Plain s h, span_all _ s h.1, is_empty-Plain s h) refl

pub tokens_three :
    (f : ℕ) (a b c : Bytes)
    → Plain a
    → Plain b
    → Plain c
    → tokens_loop (suc (suc (suc (suc f)))) (a ++ b' ' ∷ (b ++ b' ' ∷ c)) ≡ a ∷ b ∷ c ∷ []
tokens_three f a b c ha hb hc =
    word_first (suc (suc (suc f))) a (b ++ b' ' ∷ c) ha
    ∙ ap (λ l. a ∷ l) (word_blank (suc (suc f)) (b ++ b' ' ∷ c) ∙ word_first (suc (suc f)) b c hb)
    ∙ ap (λ l. a ∷ b ∷ l) (word_blank (suc f) c ∙ word_last f c hc)
