-- ===== src/Output.antt =====
-- A file on disk, as the `std::ofstream` of src/wal.cpp and the `std::fstream` of
-- src/disk_store.cpp use it. The operating system is the environment. `outcomes` holds the result of
-- each coming flush, `none` for one that succeeds and `some n` for one that fails with `n` bytes on
-- the disk; `calls` holds the success of each coming call that opens, truncates, resizes or renames a
-- file. Past their ends everything succeeds. A file that is not open takes nothing.
pub mod Flush
use redon.Prelude.{ℕ, Bool, true, false, Bytes, List, [], ◌∷◌, ◌++◌, Option, none, some, take}

pub record Output : Type 0 where
  pub contents : Bytes
  pub outcomes : List (Option ℕ)
  pub calls : List Bool
  pub is_open : Bool

write_now : Bytes → Output → List (Option ℕ) → Output × Bool
write_now s f [] = (record f { contents = f.contents ++ s }, true)
write_now s f (none ∷ later) = (record f { contents = f.contents ++ s; outcomes = later }, true)
write_now s f (some n ∷ later) =
    (record f { contents = f.contents ++ take n s; outcomes = later }, false)

write_if : Bool → Bytes → Output → Output × Bool
write_if true s f = write_now s f f.outcomes
write_if false s f = (f, false)

-- The writes of one record and the flush behind them.
unfoldable pub write_flush : Bytes → Output → Output × Bool
unfolding write_now write_if
write_flush s f = write_if f.is_open s f

next_call : Output → List Bool → Output × Bool
next_call f [] = (f, true)
next_call f (b ∷ later) = (record f { calls = later }, b)

-- The result of the next call of the file system.
unfoldable pub call : Output → Output × Bool
unfolding next_call
call f = next_call f f.calls

-- `open` of the path without truncation.
unfoldable pub open_file : Output → Output
unfolding call
open_file f = let (f', opened) = call f in record f' { is_open = opened }
