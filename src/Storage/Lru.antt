-- ===== src/Storage/Lru.antt =====
-- The contract of the cache: a list of entries, most recently used first, of at most `capacity`.
pub mod Evict
pub mod Refines
pub mod Reads
pub mod Runs
use redon.Prelude.{
  ℕ, zero, suc, ◌≡◌, refl, ap, Bool, true, false, ◌||◌, Bytes, List, [], ◌∷◌, Option, none, some,
  arith, ◌==◌, bytes_eq, if◌then◌else◌, take, length,
}
use redon.Assoc.{find, erase}
use redon.Wal.{Wal}
use redon.Storage.{Node, Storage}
use redon.Storage.Nodes.{find_node, erase_key}

-- The entries of the cache, most recently used first.
unfoldable pub entries : List Node → List (Bytes × Bytes)
entries [] = []
entries (n ∷ l) = (n.key, n.value) ∷ entries l

-- An entry becomes the most recently used.
abbrev pub touch : Bytes → Bytes → List (Bytes × Bytes) → List (Bytes × Bytes)
touch key value l = (key, value) ∷ erase key l

-- The entries that stay; capacity 0 is unbounded.
abbrev pub keep : ℕ → List (Bytes × Bytes) → List (Bytes × Bytes)
keep capacity l = if capacity == 0 then l else take capacity l

-- No write of the log has failed.
abbrev pub wal_ok : Option Wal → Bool
wal_ok none = true
wal_ok (some w) = w.ok

abbrev pub value_of : Option Node → Option Bytes
value_of none = none
value_of (some n) = some n.value

pub find-entries : (k : Bytes) (l : List Node) → find k (entries l) ≡ value_of (find_node k l)
unfolding find find_node entries
find-entries k [] = refl
find-entries k (n ∷ l) = ground (arith, find-entries k l)

pub entries-erase_key : (k : Bytes) (l : List Node) → entries (erase_key k l) ≡ erase k (entries l)
unfolding entries erase_key erase
entries-erase_key k [] = refl
entries-erase_key k (n ∷ l) = ground (arith, entries-erase_key k l)

pub length-entries : (l : List Node) → length (entries l) ≡ length l
unfolding entries
length-entries [] = refl
length-entries (n ∷ l) = ap suc (length-entries l)

pub entries-take : (m : ℕ) (l : List Node) → entries (take m l) ≡ take m (entries l)
unfolding entries
entries-take zero l = refl
entries-take (suc m) [] = refl
entries-take (suc m) (n ∷ l) = ap (◌∷◌ (n.key, n.value)) (entries-take m l)
