-- ===== src/Replication/Agree/Leader.antt =====
-- The steps of the leader of src/storage.cpp, and what a follower is owed.
use redon.Prelude.{ℕ, ◌≡◌, ap, sym, ◌∙◌, Bytes, none, arith}
use redon.Assoc.{find}
use redon.Replication.{Link}
use redon.Replication.Stream.{Changes, IsSendable, Changes-IsSendable}
use redon.Replication.Queue.{Follows-Changes, Follows-stop_links}
use redon.Replication.Sender.{Sync, change_link, stop_links}
use redon.Replication.Agree.{Live, ahead, IsSynced}
use redon.Storage
use redon.Storage.{Storage, get_memory, del_memory, log_del, replicate_del}
use redon.Storage.{Node}
use redon.Storage.Lru.{entries}
use redon.Storage.Valid.{IsValid, SameCache, SameCache-IsValid}

SameCache-stop_links : (s : Storage) → SameCache s (stop_links s)
unfolding stop_links
SameCache-stop_links s = ground arith

disk-stop_links : (s : Storage) → (stop_links s).disk ≡ s.disk
unfolding stop_links
disk-stop_links s = ground arith

pub SameCache-change_link :
    (i : ℕ) (f : Link → Link) (s : Storage) → SameCache s (change_link i f s)
unfolding change_link
SameCache-change_link i f s = ground arith

pub disk-change_link : (i : ℕ) (f : Link → Link) (s : Storage) → (change_link i f s).disk ≡ s.disk
unfolding change_link
disk-change_link i f s = ground arith

pub disk-get : (k : Bytes) (s : Storage) → s.disk ≡ none → (Storage.get k s).0.disk ≡ none
unfolding Storage.get get_memory
disk-get k s e = ground arith

pub disk-del : (k : Bytes) (s : Storage) → s.disk ≡ none → (Storage.del k s).0.disk ≡ none
unfolding Storage.del del_memory log_del replicate_del
disk-del k s e = ground arith

module _ (i : ℕ) (s : Sync) (h : IsSynced i s) where
  -- The leader's store changes, and its queues with it.
  pub changed :
      (t : Storage)
      → IsValid t
      → t.disk ≡ none
      → Changes s.leader t
      → IsSynced i (record s { leader = t })
  changed t valid memory changes = record {
    valid = valid;
    memory = memory;
    sendable = Changes-IsSendable changes h.sendable;
    replica = h.replica;
    sent = h.sent;
    sent_lines = h.sent_lines;
    sent_clean = h.sent_clean;
    rest_clean = h.rest_clean;
    stale_lines = h.stale_lines;
    follows = Follows-Changes i (ahead h.sent s.phase s.follower) (Live s) changes h.follows;
    cleared = h.cleared;
  }

  -- Other links, and the same store.
  pub relinked-IsSendable : (t : Storage) → SameCache s.leader t → IsSendable t
  relinked-IsSendable t same =
      λ k v e. h.sendable k v (sym (ap (λ l. find k (entries l)) same.items) ∙ e)

  pub stopped : IsSynced i (record s { leader = stop_links s.leader })
  stopped = record {
    valid = SameCache-IsValid s.leader _ (SameCache-stop_links s.leader) h.valid;
    memory = disk-stop_links s.leader ∙ h.memory;
    sendable = relinked-IsSendable (stop_links s.leader) (SameCache-stop_links s.leader);
    replica = h.replica;
    sent = h.sent;
    sent_lines = h.sent_lines;
    sent_clean = h.sent_clean;
    rest_clean = h.rest_clean;
    stale_lines = h.stale_lines;
    follows = Follows-stop_links i (ahead h.sent s.phase s.follower) (Live s) s.leader h.follows;
    cleared = h.cleared;
  }
