-- ===== src/Replication/Agree.antt =====
-- The invariant of a leader of src/replication.cpp and one follower, and the steps that keep it.
pub mod Leader
pub mod Handshake
pub mod Cut
pub mod Leave
pub mod Turn
pub mod Wire
pub mod Kept
use redon.Prelude.{
  ℕ, zero, suc, ◌+◌, ◌≡◌, refl, ap, sym, ◌∙◌, Bool, true, false, Bytes, List, [], ◌∷◌, ◌++◌, map,
  map-append, Option, none, some, arith, append_assoc, append-nil, All, All-append, bytes_eq,
  bytes_eq_iff, if◌then◌else◌,
}
use mathlib.Core.List.{append_cancel_right}
use redon.Assoc.{find, Distinct}
use redon.Wal.{LogRecord}
use redon.Wal.View.{view_record, view_from, view_from-append}
use redon.Replication.Lines.{
  line_of, text_of, line_of-eq, IsClean, IsReplica, follow, follow-record, follow-ping, held,
  ping_line, ping_text,
}
use redon.Replication.Stream.{IsSendable}
use redon.Replication.Queue.{Follows}
use redon.Replication.Sender.{Phase, idle, connecting, greeted, leaving, ended, sending, Sync}
use redon.Raft.{Moment}
use redon.Command.{World}
use redon.Storage.Valid.{IsValid}

-- What the sender puts on the wire: a record, or a ping.
abbrev pub Sent : Type 0
Sent = Option LogRecord

abbrev pub sent_line : Sent → Bytes
sent_line none = ping_line
sent_line (some r) = line_of r

abbrev pub sent_text : Sent → Bytes
sent_text none = ping_text
sent_text (some r) = text_of r

abbrev pub IsCleanSent : Sent → Type 0
IsCleanSent none = Unit
IsCleanSent (some r) = IsClean r

abbrev pub IsLine : Bytes → Type 0
IsLine l = (x : Sent) × IsCleanSent x × (l ≡ sent_line x)

abbrev pub sent_records : List Sent → List LogRecord
sent_records [] = []
sent_records (none ∷ xs) = sent_records xs
sent_records (some r ∷ xs) = r ∷ sent_records xs

abbrev pub set_of : Bytes × Bytes → LogRecord
set_of (key, value) = LogRecord.set key value

-- The snapshot's records that are still to be sent.
abbrev pub rest_of : Phase → List LogRecord
rest_of (sending snapshot) = map set_of snapshot
rest_of _ = []

abbrev pub is_sending : Phase → Bool
is_sending (sending snapshot) = true
is_sending _ = false

-- Past the cut, with no stale line run since the handshake.
abbrev pub Live : Sync → Type 0
Live s = (s.late ≡ 0) × (is_sending s.phase ≡ true)

-- The follower's map once it has run what is on the wire and what is left of the snapshot.
abbrev pub ahead : List Sent → Phase → World → Bytes → Option Bytes
ahead sent phase follower k = view_from (sent_records sent ++ rest_of phase) k (held k follower)

pub record IsSynced (i : ℕ) (s : Sync) : Type 0 where
  pub valid : IsValid s.leader
  pub memory : s.leader.disk ≡ none
  pub sendable : IsSendable s.leader
  pub replica : IsReplica s.follower
  pub sent : List Sent
  pub sent_lines : s.wire ≡ map sent_line sent
  pub sent_clean : All IsCleanSent sent
  pub rest_clean : All IsClean (rest_of s.phase)
  pub stale_lines : All IsLine s.stale
  pub follows : Follows i (ahead sent s.phase s.follower) (Live s) s.leader
  pub cleared :
      s.phase ≡ greeted → s.late ≡ 0 → (sent ≡ []) × ((k : Bytes) → held k s.follower ≡ none)

pub sent_records-append :
    (xs ys : List Sent) → sent_records (xs ++ ys) ≡ sent_records xs ++ sent_records ys
sent_records-append [] ys = refl
sent_records-append (none ∷ xs) ys = sent_records-append xs ys
sent_records-append (some r ∷ xs) ys = ap (◌∷◌ r) (sent_records-append xs ys)

pub sent_line-eq : (x : Sent) → sent_line x ≡ sent_text x ++ b'\n' ∷ []
sent_line-eq none = refl
sent_line-eq (some r) = line_of-eq r

-- A line that the follower takes off is the text of what was sent.
pub sent_text_of : (x : Sent) (line : Bytes) → line ++ b'\n' ∷ [] ≡ sent_line x → line ≡ sent_text x
sent_text_of x line e = append_cancel_right line (sent_text x) (b'\n' ∷ []) (e ∙ sent_line-eq x)

-- The follower runs a line that was sent.
pub follow-sent :
    (m : Moment) (x : Sent) (w : World)
    → IsCleanSent x
    → IsReplica w
    → IsReplica (follow m (sent_text x) w)
      × ((xs : List Sent) (k : Bytes)
          → view_from (sent_records xs) k (held k (follow m (sent_text x) w))
            ≡ view_from (sent_records (x ∷ xs)) k (held k w))
unfolding view_from
follow-sent m none w c h = rw (follow-ping m w h.alone) (h, λ xs k. refl)
follow-sent m (some r) w c h =
    let (replica, seen) = follow-record m r w c h in
    (replica, λ xs k. ap (view_from (sent_records xs) k) (seen k))

pub All-IsLine : (xs : List Sent) → All IsCleanSent xs → All IsLine (map sent_line xs)
All-IsLine [] h = tt
All-IsLine (x ∷ xs) h = ((x, h.0, refl), All-IsLine xs h.1)

-- A snapshot of distinct keys, run over an empty map, leaves the map of the snapshot.
or_else : Option Bytes → Option Bytes → Option Bytes
or_else none o = o
or_else (some v) o = some v

view_from_miss :
    (l : List (Bytes × Bytes)) (k : Bytes) (o : Option Bytes)
    → Distinct l
    → view_from (map set_of l) k o ≡ or_else (find k l) o
unfolding view_from find or_else
view_from_miss [] k o d = refl
view_from_miss ((j, v) ∷ l) k o d =
    view_from_miss l k (if bytes_eq j k then some v else o) d.1
    ∙ ground (arith, bytes_eq_iff j k, d.0)

pub snapshot-view :
    (l : List (Bytes × Bytes)) (k : Bytes) → Distinct l → view_from (map set_of l) k none ≡ find k l
unfolding or_else
snapshot-view l k d = view_from_miss l k none d ∙ ground arith
