-- ===== src/Output/Flush.antt =====
-- What a flush leaves in the file.
use redon.Prelude.{
  ℕ, ◌≡◌, refl, sym, Bool, true, false, Bytes, List, [], ◌∷◌, ◌++◌, append-nil, Option, none, some,
  take,
}
use redon.Output.{Output, write_now, write_if, write_flush, next_call, call, open_file}

module _ (s : Bytes) (f : Output) where
  write_now_all :
      (outcomes : List (Option ℕ))
      → (write_now s f outcomes).1 ≡ true
      → (write_now s f outcomes).0.contents ≡ f.contents ++ s
  unfolding write_now
  write_now_all [] h = refl
  write_now_all (none ∷ later) h = refl
  write_now_all (some n ∷ later) h = cc

  write_now_part :
      (outcomes : List (Option ℕ))
      → (write_now s f outcomes).1 ≡ false
      → (n : ℕ) × ((write_now s f outcomes).0.contents ≡ f.contents ++ take n s)
  unfolding write_now
  write_now_part [] h = cc
  write_now_part (none ∷ later) h = cc
  write_now_part (some n ∷ later) h = (n, refl)

  write_if_all :
      (b : Bool) → (write_if b s f).1 ≡ true → (write_if b s f).0.contents ≡ f.contents ++ s
  unfolding write_if
  write_if_all true h = write_now_all f.outcomes h
  write_if_all false h = cc

  write_if_part :
      (b : Bool)
      → (write_if b s f).1 ≡ false
      → (n : ℕ) × ((write_if b s f).0.contents ≡ f.contents ++ take n s)
  unfolding write_if
  write_if_part true h = write_now_part f.outcomes h
  write_if_part false h = (0, sym (append-nil f.contents))

  pub write_flush_all : (write_flush s f).1 ≡ true → (write_flush s f).0.contents ≡ f.contents ++ s
  unfolding write_flush
  write_flush_all = write_if_all f.is_open

  pub write_flush_part :
      (write_flush s f).1 ≡ false
      → (n : ℕ) × ((write_flush s f).0.contents ≡ f.contents ++ take n s)
  unfolding write_flush
  write_flush_part = write_if_part f.is_open

contents-next_call : (f : Output) (calls : List Bool) → (next_call f calls).0.contents ≡ f.contents
unfolding next_call
contents-next_call f [] = refl
contents-next_call f (b ∷ later) = refl

pub contents-open_file : (f : Output) → (open_file f).contents ≡ f.contents
unfolding open_file call
contents-open_file f = contents-next_call f f.calls
