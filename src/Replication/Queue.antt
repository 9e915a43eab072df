-- ===== src/Replication/Queue.antt =====
-- The queue of a link of src/replication.cpp, as the records that its follower still misses.
use redon.Prelude.{
  ℕ, zero, suc, ◌≡◌, refl, ap, sym, ◌∙◌, true, false, Bytes, List, [], ◌∷◌, ◌++◌, map, map-append,
  Option, none, some, arith, All, All-append, Bool-cases, Option-cases, inl, inr, leb, length,
}
use mathlib.Core.Path.{subst}
use mathlib.Core.Bool.{false≢true}
use mathlib.Core.Option.{some-injective}
use redon.Assoc.{find}
use redon.Wal.{LogRecord}
use redon.Wal.View.{view_record, view_from, view_from-append}
use redon.Replication.{
  Replicator, Link, max_queue, enqueue_link, enqueue, link_at, update_link, stop_link, stop_all,
}
use redon.Replication.Lines.{line_of, IsClean}
use redon.Replication.Stream.{pushed, Changes, quiet, moved, both}
use redon.Replication.Sender.{link_of, change_link, stop_links}
use redon.Storage.{Storage}
use redon.Storage.Lru.Refines.{view}

link_at-map :
    (i : ℕ) (f : Link → Link) (l : Replicator) (link' : Link)
    → link_at i (map f l) ≡ some link'
    → (link : Link) × (link_at i l ≡ some link) × (link' ≡ f link)
unfolding link_at
link_at-map i f [] link' e = absurd (ground arith)
link_at-map zero f (x ∷ l) link' e = (x, refl, sym (some-injective (f x) link' e))
link_at-map (suc i) f (x ∷ l) link' e = link_at-map i f l link' e

link_at-update :
    (i : ℕ) (f : Link → Link) (l : Replicator) (link' : Link)
    → link_at i (update_link i f l) ≡ some link'
    → (link : Link) × (link_at i l ≡ some link) × (link' ≡ f link)
unfolding link_at update_link
link_at-update i f [] link' e = absurd (ground arith)
link_at-update zero f (x ∷ l) link' e = (x, refl, sym (some-injective (f x) link' e))
link_at-update (suc i) f (x ∷ l) link' e = link_at-update i f l link' e

-- The records of a queue. Where the follower holds `held`, they lead it to the map of the store, if the
-- link streams and `live` holds.
pub record Pending (held : Bytes → Option Bytes) (live : Type 0) (link : Link) (s : Storage)
    : Type 0 where
  pub records : List LogRecord
  pub lines : link.queue ≡ map line_of records
  pub clean : All IsClean records
  pub agree :
      live → link.streaming ≡ true → (k : Bytes) → view_from records k (held k) ≡ find k (view s)

pub enqueue_off :
    (line : Bytes) (link : Link) → link.streaming ≡ false → enqueue_link line link ≡ link
unfolding enqueue_link
enqueue_off line link off = ground arith

pub enqueue_full :
    (line : Bytes) (link : Link)
    → link.streaming ≡ true
    → leb max_queue (length link.queue) ≡ true
    → enqueue_link line link ≡ record link { queue = []; streaming = false; resync_needed = true }
unfolding enqueue_link
enqueue_full line link on full = ground arith

pub enqueue_room :
    (line : Bytes) (link : Link)
    → link.streaming ≡ true
    → leb max_queue (length link.queue) ≡ false
    → enqueue_link line link ≡ record link { queue = link.queue ++ line ∷ [] }
unfolding enqueue_link
enqueue_room line link on room = ground arith

module _ (i : ℕ) where
  abbrev pub Follows : (Bytes → Option Bytes) → Type 0 → Storage → Type 0
  Follows held live s = (link : Link) → link_of i s ≡ some link → Pending held live link s

  -- Another claim about the same queue.
  pub Follows-claim :
      (held held' : Bytes → Option Bytes) (live live' : Type 0) (s : Storage)
      → (live' → live × ((k : Bytes) → held' k ≡ held k))
      → Follows held live s
      → Follows held' live' s
  Follows-claim held held' live live' s claim h link e =
      let p = h link e in
      record {
        records = p.records;
        lines = p.lines;
        clean = p.clean;
        agree = λ l on k. ap (view_from p.records k) ((claim l).1 k) ∙ p.agree (claim l).0 on k;
      }

  module _ (held : Bytes → Option Bytes) (live : Type 0) where
    Pending-enqueue :
        (r : LogRecord) (s t : Storage) (link : Link)
        → IsClean r
        → ((k : Bytes) → find k (view t) ≡ view_record r k (find k (view s)))
        → Pending held live link s
        → Pending held live (enqueue_link (line_of r) link) t
    unfolding view_from
    Pending-enqueue r s t link c seen p =
        let line = line_of r in
        let becomes = λ (l : Link) (e : enqueue_link line link ≡ l) (q : Pending held live l t).
          subst (λ x. Pending held live x t) (sym e) q in
        elim (Bool-cases link.streaming) [
          | inr off ↦ becomes link (enqueue_off line link off) (record {
            records = p.records;
            lines = p.lines;
            clean = p.clean;
            agree = λ l on k. absurd (false≢true (sym off ∙ on));
          })
          | inl on ↦ elim (Bool-cases (leb max_queue (length link.queue))) [
            | inl full ↦ becomes _ (enqueue_full line link on full) (record {
              records = [];
              lines = refl;
              clean = tt;
              agree = λ l off k. absurd (false≢true off);
            })
            | inr room ↦ becomes _ (enqueue_room line link on room) (record {
              records = p.records ++ r ∷ [];
              lines =
                  ap (λ q. q ++ line ∷ []) p.lines ∙ sym (map-append line_of p.records (r ∷ []));
              clean = All-append IsClean p.records (r ∷ []) p.clean (c, tt);
              agree = λ l _ k.
                  view_from-append p.records (r ∷ []) k (held k)
                  ∙ ap (view_record r k) (p.agree l on k)
                  ∙ sym (seen k);
            })
          ]
        ]

    Pending-moved :
        (r : LogRecord) (s t : Storage) (link' : Link) (o : Option Replicator)
        → s.replicator ≡ o
        → t.replicator ≡ pushed r o
        → link_of i t ≡ some link'
        → (link : Link) × (link_of i s ≡ some link) × (link' ≡ enqueue_link (line_of r) link)
    unfolding enqueue
    Pending-moved r s t link' none e e' = rw e' (λ z. absurd (ground arith))
    Pending-moved r s t link' (some x) e e' =
        rw (e, e') (λ z. link_at-map i (enqueue_link (line_of r)) x link' z)

    pub Follows-Changes : {s t : Storage} → Changes s t → Follows held live s → Follows held live t
    Follows-Changes (quiet s t same seen) h = λ link e.
        let p = h link (ap (λ o. elim o [ none ↦ none | some r ↦ link_at i r ]) (sym same) ∙ e) in
        record {
          records = p.records;
          lines = p.lines;
          clean = p.clean;
          agree = λ l on k. p.agree l on k ∙ sym (seen k);
        }
    Follows-Changes (moved r s t c same seen) h = λ link' e.
        let (link, there, is) = Pending-moved r s t link' s.replicator refl same e in
        subst (λ l. Pending held live l t) (sym is)
          (Pending-enqueue r s t link c seen (h link there))
    Follows-Changes (both p q) h = Follows-Changes q (Follows-Changes p h)

    -- The stop flag is none of the queue's business.
    pub Follows-stop_links : (s : Storage) → Follows held live s → Follows held live (stop_links s)
    unfolding stop_links stop_all stop_link
    Follows-stop_links s h link' = elim (Option-cases s.replicator) [
      | inl e ↦ rw (e, stop_links) (λ z. absurd (ground arith))
      | inr (x, e) ↦
          rw (e, stop_links)
            (λ z.
              let (link, there, is) = link_at-map i stop_link x link' z in
              let p = h link (rw e there) in
              rw is
                (record { records = p.records; lines = p.lines; clean = p.clean; agree = p.agree }))
    ]

  -- A change of the link itself.
  pub Follows-change_link :
      (f : Link → Link) (held held' : Bytes → Option Bytes) (live live' : Type 0) (s : Storage)
      → ((link : Link)
          → link_of i s ≡ some link
          → Pending held live link s
          → Pending held' live' (f link) s)
      → Follows held live s
      → Follows held' live' (change_link i f s)
  unfolding change_link
  Follows-change_link f held held' live live' s step h link' = elim (Option-cases s.replicator) [
    | inl e ↦ rw (e, change_link) (λ z. absurd (ground arith))
    | inr (x, e) ↦
        rw (e, change_link)
          (λ z.
            let (link, there, is) = link_at-update i f x link' z in
            let at : link_of i s ≡ some link = rw e there in
            let p = step link at (h link at) in
            rw is
              (record { records = p.records; lines = p.lines; clean = p.clean; agree = p.agree }))
  ]
