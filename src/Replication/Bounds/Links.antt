-- ===== src/Replication/Bounds/Links.antt =====
-- The queues of src/replication.cpp, link by link.
use redon.Prelude.{
  ℕ, zero, suc, ◌≤◌, ◌≡◌, refl, false, Bytes, List, [], ◌∷◌, map, Option, none, some, arith, All,
  length, length-append,
}
use redon.Replication.{
  Replicator, Link, max_queue, enqueue_link, enqueue, update_link, stop_link, begin_streaming,
  take_line, cleanup,
}

-- A link holds `max_queue` lines at most, and none when nobody streams them.
pub record IsBoundedLink (link : Link) : Type 0 where
  pub bound : length link.queue ≤ max_queue
  pub idle : link.streaming ≡ false → link.queue ≡ []

abbrev pub IsBoundedStore : Option Replicator → Type 0
IsBoundedStore none = Unit
IsBoundedStore (some r) = All IsBoundedLink r

pub All-map {ℓ κ} :
    {A : Type ℓ} (P : A → Type κ) (f : A → A) (l : List A)
    → ((x : A) → P x → P (f x))
    → All P l
    → All P (map f l)
All-map P f [] k h = tt
All-map P f (x ∷ l) k h = (k x h.0, All-map P f l k h.1)

enqueue-IsBounded :
    (line : Bytes) (link : Link) → IsBoundedLink link → IsBoundedLink (enqueue_link line link)
unfolding enqueue_link
enqueue-IsBounded line link h =
    ground (arith, length-append link.queue (line ∷ []), h.bound, h.idle)

pub pushed-IsBounded :
    (line : Bytes) (r : Replicator) → All IsBoundedLink r → All IsBoundedLink (enqueue line r)
unfolding enqueue
pushed-IsBounded line r h = All-map IsBoundedLink (enqueue_link line) r (enqueue-IsBounded line) h

pub update-IsBounded :
    (i : ℕ) (f : Link → Link) (r : Replicator)
    → ((x : Link) → IsBoundedLink x → IsBoundedLink (f x))
    → All IsBoundedLink r
    → All IsBoundedLink (update_link i f r)
unfolding update_link
update-IsBounded i f [] k h = tt
update-IsBounded zero f (x ∷ r) k h = (k x h.0, h.1)
update-IsBounded (suc i) f (x ∷ r) k h = (h.0, update-IsBounded i f r k h.1)

pub begin-IsBounded : (link : Link) → IsBoundedLink link → IsBoundedLink (begin_streaming link)
unfolding begin_streaming
begin-IsBounded link h = ground arith

pub take-IsBounded : (link : Link) → IsBoundedLink link → IsBoundedLink (take_line link).0
unfolding take_line
take-IsBounded link h = ground (arith, h.bound, h.idle)

pub cleanup-IsBounded : (link : Link) → IsBoundedLink link → IsBoundedLink (cleanup link).0
unfolding cleanup
cleanup-IsBounded link h = record { bound = omega arith; idle = λ e. refl }

pub stop-IsBounded : (link : Link) → IsBoundedLink link → IsBoundedLink (stop_link link)
unfolding stop_link
stop-IsBounded link h = record { bound = h.bound; idle = h.idle }
