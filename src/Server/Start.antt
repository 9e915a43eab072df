-- ===== src/Server/Start.antt =====
-- The set-up of src/server.cpp over a log: what the store holds then.
use mathlib.Core.Path.{subst}
use redon.Prelude.{
  ◌≡◌, ap, sym, ◌∙◌, true, false, Bytes, List, [], ◌∷◌, ◌++◌, append-nil, Option, none, some, arith,
  All, codes, Bool-cases, inl, inr,
}
use redon.Assoc.{find}
use redon.Output.{Output}
use redon.Output.Flush.{contents-open_file}
use redon.Wal.{LogRecord, Wal, encode, read_record, new_wal, open_for_append}
use redon.Wal.Format.{IsRecord, read_record_torn}
use redon.Wal.Replay.{encode_all}
use redon.Wal.View
use redon.Wal.View.{view_record, view_from, view-concat}
use redon.Storage
use redon.Storage.{Storage, new_storage, attach_wal, attach_replicator}
use redon.Storage.Valid.{IsValid}
use redon.Storage.Lru.Refines.{view}
use redon.Storage.Lru.Runs.{
  Command, set_command, get_command, del_command, run_command, run_commands,
}
use redon.Storage.Journal.{IsJournal, sized-IsRecord}
use redon.Storage.Journal.Commands.{set-IsJournal, get-IsJournal, del-IsJournal}
use redon.Storage.Replay.{replay_into, replay_into-view, replay_into-IsUnbounded}
use redon.Raft.{Moment}
use redon.Server.Client.{Server}
use redon.Server.Setup.{
  ServerConfig, persistence_off, setup_persistence, setup_replication, setup_storage, set_up,
}

-- A SET whose key and value the log's reader takes.
abbrev pub IsLoggable : Command → Type 0
IsLoggable (set_command k v) = IsRecord (LogRecord.set k v)
IsLoggable (get_command k) = Unit
IsLoggable (del_command k) = Unit

pub run_commands-IsJournal :
    (cs : List Command) (s : Storage)
    → All IsLoggable cs
    → IsJournal s
    → IsJournal (run_commands cs s).0
unfolding run_commands run_command
run_commands-IsJournal [] s is h = h
run_commands-IsJournal (set_command k v ∷ cs) s is h =
    run_commands-IsJournal cs (Storage.set k v s).0 is.1 (set-IsJournal k v s h is.0)
run_commands-IsJournal (get_command k ∷ cs) s is h =
    run_commands-IsJournal cs (Storage.get k s).0 is.1 (get-IsJournal k s h)
run_commands-IsJournal (del_command k ∷ cs) s is h =
    run_commands-IsJournal cs (Storage.del k s).0 is.1 (del-IsJournal k s h)

sized_from-IsRecord :
    (rs : List LogRecord) (k v : Bytes) (o : Option Bytes)
    → All IsRecord rs
    → ((u : Bytes) → o ≡ some u → IsRecord (LogRecord.set k u))
    → view_from rs k o ≡ some v
    → IsRecord (LogRecord.set k v)
unfolding view_from
sized_from-IsRecord [] k v o is h e = h v e
sized_from-IsRecord (r ∷ rs) k v o is h e =
    sized_from-IsRecord rs k v (view_record r k o) is.1 (λ u z. sized-IsRecord r k u o is.0 (h u) z)
      e

-- What a start over a log leaves in the store.
pub record Started (config : ServerConfig) (wal_file : Output) (s : Server) : Type 0 where
  pub wal : Wal
  pub works : wal.ok ≡ true
  pub holds : wal.file.contents ≡ wal_file.contents
  pub store :
      s.store
      ≡ setup_replication config
          (attach_wal (some wal) (replay_into wal_file.contents (new_storage 0)).0)

-- A configuration of an unbounded store over a log.
pub record IsLogged (config : ServerConfig) : Type 0 where
  pub no_disk : config.disk_path ≡ []
  pub log : persistence_off config.wal_path ≡ false
  pub unbounded : config.capacity ≡ 0

pub set_up-Started :
    (config : ServerConfig) (disk_file wal_file : Output) (m : Moment) (s : Server)
    → IsLogged config
    → set_up config disk_file wal_file m ≡ some s
    → Started config wal_file s
unfolding set_up setup_storage setup_persistence open_for_append new_wal
set_up-Started config disk_file wal_file m s c =
    rw (c.no_disk, c.unbounded)
      (elim (Bool-cases (open_for_append (new_wal wal_file)).1) [
        | inl opened ↦ λ e. record {
          wal = (open_for_append (new_wal wal_file)).0;
          works = opened;
          holds = contents-open_file (record wal_file { is_open = false });
          store = ground (arith, e, opened, c.log);
        }
        | inr failed ↦ λ e. absurd (ground (arith, e, failed, c.log))
      ])

store-setup_replication :
    (config : ServerConfig) (s : Storage)
    → (view (setup_replication config s) ≡ view s)
      × ((setup_replication config s).wal ≡ s.wal)
      × ((setup_replication config s).disk ≡ s.disk)
unfolding setup_replication attach_replicator
store-setup_replication config s = ground arith

IsValid-setup_replication :
    (config : ServerConfig) (s : Storage) → IsValid s → IsValid (setup_replication config s)
unfolding setup_replication attach_replicator
IsValid-setup_replication config s h = ground (arith, h)

pub no_record : read_record [] ≡ none
unfolding encode
no_record = read_record_torn (LogRecord.del (codes "k")) 0 (omega arith, omega arith) (ground arith)

-- What a started store holds of a log of complete records with a tail that is none.
pub record Holds (rs : List LogRecord) (s : Storage) : Type 0 where
  pub valid : IsValid s
  pub memory : s.disk ≡ none
  pub seen : (k : Bytes) → find k (view s) ≡ View.view rs k

pub Started-Holds :
    (config : ServerConfig) (wal_file : Output) (s : Server) (rs : List LogRecord) (tail : Bytes)
    → Started config wal_file s
    → wal_file.contents ≡ encode_all rs ++ tail
    → All IsRecord rs
    → read_record tail ≡ none
    → Holds rs s.store
unfolding attach_wal
Started-Holds config wal_file s rs tail st contents are torn =
    let replayed = (replay_into (encode_all rs ++ tail) (new_storage 0)).0 in
    let u : Storage = attach_wal (some st.wal) replayed in
    let store : s.store ≡ setup_replication config u =
      st.store
      ∙ ap
          (λ b.
            setup_replication config (attach_wal (some st.wal) (replay_into b (new_storage 0)).0))
          contents in
    let un = replay_into-IsUnbounded rs tail are torn in
    let (same_view, same_wal, same_disk) = store-setup_replication config u in
    record {
      valid = subst IsValid (sym store) (IsValid-setup_replication config u un.valid);
      memory = ap (λ x. x.disk) store ∙ same_disk ∙ un.alone.disk;
      seen = λ k.
          ap (λ x. find k (view x)) store
          ∙ ap (find k) same_view
          ∙ (replay_into-view rs tail are torn).1 k;
    }

pub Started-IsJournal :
    (config : ServerConfig) (wal_file : Output) (s : Server) (rs : List LogRecord)
    → Started config wal_file s
    → wal_file.contents ≡ encode_all rs
    → All IsRecord rs
    → IsJournal s.store
unfolding attach_wal
Started-IsJournal config wal_file s rs st contents are =
    let h =
      Started-Holds config wal_file s rs [] st (contents ∙ sym (append-nil (encode_all rs))) are
        no_record in
    let (same_view, same_wal, same_disk) =
      store-setup_replication config
        (attach_wal (some st.wal) (replay_into wal_file.contents (new_storage 0)).0) in
    record {
      valid = h.valid;
      memory = h.memory;
      sized = λ k v e.
          sized_from-IsRecord rs k v none are (λ u z. absurd (ground (arith, z)))
            (sym (h.seen k) ∙ e);
      wal = st.wal;
      at = ap (λ x. x.wal) st.store ∙ same_wal;
      records = rs;
      are = are;
      written = inl (st.works, st.holds ∙ contents);
      seen = h.seen;
    }
