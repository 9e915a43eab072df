-- ===== src/Command/Parse.antt =====
-- How a line of the protocol comes apart: a verb, a key and a value in their canonical places.
use redon.Prelude.{
  ℕ, ◌≡◌, ◌≢◌, refl, ap, ◌∙◌, Bool, true, false, not, ◌&&◌, Bytes, [], ◌∷◌, ◌++◌, arith,
  cons-ne-nil, ◌==◌, if◌then◌else◌, is_empty,
}
use redon.Text.{is_space, skip_space, span_token}
use redon.Text.Span.{span, Every, span_stop, span_all}
use redon.Raft.{Moment}
use redon.Command.{
  World, skip_mark, trim_end, trim, next_token, to_upper, execute_verb, execute_line,
}

-- A word: at least one byte, and no whitespace.
pub record IsWord (s : Bytes) : Type 0 where
  pub some_byte : s ≢ []
  pub plain : Every (λ c. not (is_space c)) s

-- A value: at least one byte, and no whitespace at either end.
pub record IsValue (s : Bytes) : Type 0 where
  pub some_byte : s ≢ []
  pub front : skip_space s ≡ s
  pub back : trim_end s ≡ s

-- The first byte is not the first of the mark.
abbrev pub unmarked : Bytes → Bool
unmarked [] = true
unmarked (c ∷ s) = not (c == 0xef)

skip_word : (s t : Bytes) → IsWord s → skip_space (s ++ t) ≡ s ++ t
unfolding skip_space span
skip_word [] t h = absurd (h.some_byte refl)
skip_word (c ∷ s) t h = ground (arith, h.plain)

skip_key : (s : Bytes) → IsWord s → skip_space s ≡ s
unfolding skip_space span
skip_key [] h = refl
skip_key (c ∷ s) h = ground (arith, h.plain)

skip_blank : (t : Bytes) → skip_space (b' ' ∷ t) ≡ skip_space t
unfolding skip_space span is_space
skip_blank t = refl

skip_mark_other : (c : ℕ) (t : Bytes) → (c == 0xef) ≡ false → skip_mark (c ∷ t) ≡ c ∷ t
unfolding skip_mark
skip_mark_other c [] e = refl
skip_mark_other c (a ∷ []) e = refl
skip_mark_other c (a ∷ b ∷ t) e = ground arith

skip_mark_word : (s t : Bytes) → IsWord s → unmarked s ≡ true → skip_mark (s ++ t) ≡ s ++ t
skip_mark_word [] t h e = absurd (h.some_byte refl)
skip_mark_word (c ∷ s) t h e = skip_mark_other c (s ++ t) (ground arith)

trim_end-append : (s t : Bytes) → t ≢ [] → trim_end t ≡ t → trim_end (s ++ t) ≡ s ++ t
unfolding trim_end
trim_end-append [] t n e = e
trim_end-append (c ∷ s) t n e =
    rw (trim_end-append s t n e) (keep c (s ++ t) (λ z. n (nil_right s t z)))
  where
    keep : (c : ℕ) (r : Bytes) → r ≢ [] → (if is_empty r && is_space c then [] else c ∷ r) ≡ c ∷ r
    keep c [] h = absurd (h refl)
    keep c (b ∷ r) h = refl

    nil_right : (s t : Bytes) → s ++ t ≡ [] → t ≡ []
    nil_right [] t z = z
    nil_right (c ∷ s) t z = absurd (cons-ne-nil _ _ z)

trim_end_word : (s : Bytes) → IsWord s → trim_end s ≡ s
unfolding trim_end
trim_end_word [] h = refl
trim_end_word (c ∷ []) h = ground (arith, h.plain)
trim_end_word (c ∷ b ∷ s) h =
    trim_end-append (c ∷ []) (b ∷ s) (cons-ne-nil _ _)
      (trim_end_word (b ∷ s) (record { some_byte = (cons-ne-nil _ _); plain = h.plain.1 }))

next_token_word : (s t : Bytes) → IsWord s → next_token (s ++ b' ' ∷ t) ≡ (s, skip_space t)
unfolding next_token span_token
next_token_word s t h =
    rw (span_stop _ s t b' ' h.plain (unfold is_space in refl)) (ap (λ r. (s, r)) (skip_blank t))

next_token_last : (s : Bytes) → IsWord s → next_token s ≡ (s, [])
unfolding next_token span_token skip_space span
next_token_last s h = rw (span_all _ s h.plain) refl

trim_words :
    (word t : Bytes)
    → IsWord word
    → unmarked word ≡ true
    → trim_end (word ++ t) ≡ word ++ t
    → trim (word ++ t) ≡ word ++ t
unfolding trim
trim_words word t h m e = rw (skip_word word t h, skip_mark_word word t h m) e

execute_line_from :
    (follower : Bool) (m : Moment) (line s word after key rest : Bytes) (w : World)
    → trim line ≡ s
    → is_empty s ≡ false
    → next_token s ≡ (word, after)
    → next_token after ≡ (key, rest)
    → execute_line follower m line w ≡ execute_verb follower m (to_upper word) key rest w
unfolding execute_line
execute_line_from follower m line s word after key rest w e n e1 e2 = rw (e, e1, e2, n) refl

is_empty_word : (s t : Bytes) → IsWord s → is_empty (s ++ t) ≡ false
is_empty_word [] t h = absurd (h.some_byte refl)
is_empty_word (c ∷ s) t h = refl

module _ (follower : Bool) (m : Moment) (word key : Bytes) (w : World) (hw : IsWord word)
    (hm : unmarked word ≡ true) (hk : IsWord key) where
  -- A line of a verb, a key and a value, each behind one blank, is taken apart at the first two
  -- blanks; the value may hold more of them.
  pub execute_line-value :
      (value : Bytes)
      → IsValue value
      → execute_line follower m (word ++ b' ' ∷ (key ++ (b' ' ∷ value))) w
        ≡ execute_verb follower m (to_upper word) key value w
  execute_line-value value hv =
      let tail = b' ' ∷ (key ++ (b' ' ∷ value)) in
      let last = trim_end-append (b' ' ∷ []) value hv.some_byte hv.back in
      let middle = trim_end-append (b' ' ∷ key) (b' ' ∷ value) (cons-ne-nil _ _) last in
      execute_line_from follower m (word ++ tail) (word ++ tail) word (key ++ b' ' ∷ value) key
        value w (trim_words word tail hw hm (trim_end-append word tail (cons-ne-nil _ _) middle))
        (is_empty_word word tail hw)
        (next_token_word word (key ++ b' ' ∷ value) hw
          ∙ ap (λ r. (word, r)) (skip_word key (b' ' ∷ value) hk))
        (next_token_word key value hk ∙ ap (λ r. (key, r)) hv.front)

  -- The same of a line that ends with the key.
  pub execute_line-key :
      execute_line follower m (word ++ b' ' ∷ key) w
      ≡ execute_verb follower m (to_upper word) key [] w
  execute_line-key =
      let tail = b' ' ∷ key in
      let last = trim_end-append (b' ' ∷ []) key hk.some_byte (trim_end_word key hk) in
      execute_line_from follower m (word ++ tail) (word ++ tail) word key key [] w
        (trim_words word tail hw hm (trim_end-append word tail (cons-ne-nil _ _) last))
        (is_empty_word word tail hw)
        (next_token_word word key hw ∙ ap (λ r. (word, r)) (skip_key key hk))
        (next_token_last key hk)
