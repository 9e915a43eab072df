-- ===== src/Replication.antt =====
-- src/replication.h and src/replication.cpp: the leader's links to its followers, and the wire lines.
-- Each region that holds a link's mutex is one function; the sender's loop is in `Sender`.
pub mod Sender
pub mod Lines
pub mod Stream
pub mod Queue
pub mod Agree
pub mod Converge
pub mod Onward
pub mod CatchUp
pub mod Still
pub mod Stale
pub mod Bounds
use redon.Prelude.{
  ℕ, zero, suc, Bool, true, false, not, ◌||◌, Bytes, List, [], ◌∷◌, ◌++◌, Option, none, some, map,
  codes, leb, if◌then◌else◌, length,
}
use redon.Text.Address.{split_host_port}

abbrev pub max_queue : ℕ
max_queue = 100000

unfoldable pub set_line : Bytes → Bytes → Bytes
set_line key value = codes "SET " ++ (key ++ b' ' ∷ (value ++ b'\n' ∷ []))

unfoldable pub del_line : Bytes → Bytes
del_line key = codes "DEL " ++ (key ++ b'\n' ∷ [])

pub record Link : Type 0 where
  pub host : Bytes
  pub port : ℕ
  pub queue : List Bytes
  pub streaming : Bool
  pub resync_needed : Bool
  pub stop : Bool

abbrev pub Replicator : Type 0
Replicator = List Link

-- One link's round of the loop of `enqueue`.
unfoldable pub enqueue_link : Bytes → Link → Link
enqueue_link line link =
    if not link.streaming
    then link
    else if leb max_queue (length link.queue)
    then record link { queue = []; streaming = false; resync_needed = true }
    else record link { queue = link.queue ++ line ∷ [] }

unfoldable pub enqueue : Bytes → Replicator → Replicator
unfolding enqueue_link
enqueue line = map (enqueue_link line)

unfoldable pub replicate_set : Bytes → Bytes → Replicator → Replicator
replicate_set key value = enqueue (set_line key value)

unfoldable pub replicate_del : Bytes → Replicator → Replicator
replicate_del key = enqueue (del_line key)

-- A link of an address that splits; the others are left out.
unfoldable pub new_links : Option (Bytes × ℕ) → List Link
new_links none = []
new_links (some (host, port)) =
    record {
      host = host;
      port = port;
      queue = [];
      streaming = false;
      resync_needed = false;
      stop = false;
    }
    ∷ []

unfoldable pub new_replicator : List Bytes → Replicator
new_replicator [] = []
new_replicator (addr ∷ addrs) = new_links (split_host_port addr) ++ new_replicator addrs

-- The first loop of `stop`.
unfoldable pub stop_link : Link → Link
stop_link link = record link { stop = true }

unfoldable pub stop_all : Replicator → Replicator
stop_all = map stop_link

-- What runs under the lock of the store: the link is at the cut, and streams from here on.
unfoldable pub begin_streaming : Link → Link
begin_streaming link = record link { queue = []; resync_needed = false; streaming = true }

-- What the sender does next: leave the connection, send a line, or ping an idle follower.
pub data Turn : Type 0 where
  leave ping : Turn
  send : Bytes → Turn

-- One wait of the streaming loop; an empty queue is a wait that timed out.
unfoldable pub take_line : Link → Link × Turn
take_line link =
    if link.stop || link.resync_needed
    then (record link { resync_needed = false }, leave)
    else elim link.queue [
      | [] ↦ (link, ping)
      | line ∷ rest ↦ (record link { queue = rest }, send line)
    ]

-- The cleanup on every path; the second component is whether the sender ends.
unfoldable pub cleanup : Link → Link × Bool
cleanup link = (record link { streaming = false; queue = [] }, link.stop)

-- The link at a place in the list, and a change of it.
unfoldable pub link_at : ℕ → Replicator → Option Link
link_at i [] = none
link_at zero (link ∷ links) = some link
link_at (suc i) (link ∷ links) = link_at i links

unfoldable pub update_link : ℕ → (Link → Link) → Replicator → Replicator
update_link i f [] = []
update_link zero f (link ∷ links) = f link ∷ links
update_link (suc i) f (link ∷ links) = link ∷ update_link i f links
