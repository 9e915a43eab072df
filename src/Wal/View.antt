-- ===== src/Wal/View.antt =====
-- What a log means: the map that its records leave, the same for the log of src/wal.cpp and the data
-- file of src/disk_store.cpp.
use redon.Prelude.{
  ◌≡◌, refl, Bytes, List, [], ◌∷◌, ◌++◌, Option, none, some, bytes_eq, if◌then◌else◌,
}
use redon.Wal.{LogRecord}

-- The value of `k` behind a record, where it was `o` before.
abbrev pub view_record : LogRecord → Bytes → Option Bytes → Option Bytes
view_record (LogRecord.set key value) k o = if bytes_eq key k then some value else o
view_record (LogRecord.del key) k o = if bytes_eq key k then none else o

unfoldable pub view_from : List LogRecord → Bytes → Option Bytes → Option Bytes
view_from [] k o = o
view_from (r ∷ rs) k o = view_from rs k (view_record r k o)

-- The map that a log leaves.
abbrev pub view : List LogRecord → Bytes → Option Bytes
view rs k = view_from rs k none

pub view_from-append :
    (rs ss : List LogRecord) (k : Bytes) (o : Option Bytes)
    → view_from (rs ++ ss) k o ≡ view_from ss k (view_from rs k o)
unfolding view_from
view_from-append [] ss k o = refl
view_from-append (r ∷ rs) ss k o = view_from-append rs ss k (view_record r k o)

pub view-concat :
    (rs : List LogRecord) (r : LogRecord) (k : Bytes)
    → view (rs ++ r ∷ []) k ≡ view_record r k (view rs k)
unfolding view_from
view-concat rs r k = view_from-append rs (r ∷ []) k none
