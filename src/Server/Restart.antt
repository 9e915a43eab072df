-- ===== src/Server/Restart.antt =====
-- The set-up of src/server.cpp over the log that an earlier run has left.
use mathlib.Core.Path.{subst}
use mathlib.Core.Option.{some-injective}
use redon.Prelude.{
  ◌≡◌, ◌⊎◌, ap, sym, ◌∙◌, false, Bytes, List, [], ◌∷◌, ◌++◌, append-nil, none, some, arith, All,
  All-append, length, take, take_of_length-le, leb, Bool-cases, inl, inr,
}
use redon.Assoc.{find}
use redon.Output.{Output}
use redon.Wal.{LogRecord, Wal, encode}
use redon.Wal.Format.{IsRecord, read_record_torn}
use redon.Wal.Replay.{encode_all, encode_all-concat}
use redon.Wal.View
use redon.Wal.View.{view_record, view_from, view-concat}
use redon.Wal.Written.{Written}
use redon.Storage
use redon.Storage.{Storage, new_storage, attach_wal, attach_replicator}
use redon.Storage.Valid.{IsValid}
use redon.Storage.Lru.Refines.{view}
use redon.Storage.Lru.Reads.{get-used}
use redon.Storage.Lru.Runs.{Command, run_commands}
use redon.Storage.Journal.{IsJournal}
use redon.Raft.{Moment}
use redon.Server.Client.{Server}
use redon.Server.Setup.{ServerConfig, set_up}
use redon.Server.Start.{
  IsLoggable, run_commands-IsJournal, Started, IsLogged, set_up-Started, no_record, Holds,
  Started-Holds, Started-IsJournal,
}

held_answers :
    (t u : Storage) (rs : List LogRecord)
    → Holds rs t
    → IsValid u
    → u.disk ≡ none
    → (k : Bytes) → find k (view u) ≡ View.view rs k
    → (Storage.get k t).1 ≡ (Storage.get k u).1
held_answers t u rs h valid memory k e =
    (get-used k t h.valid h.memory).0 ∙ h.seen k ∙ sym e ∙ sym (get-used k u valid memory).0

-- A server that starts again over the log of a stopped one.
pub Again : Storage → Wal → Storage → Type 0
Again u w t =
    ((k : Bytes) → (Storage.get k t).1 ≡ (Storage.get k u).1)
    ⊎ ((w.ok ≡ false)
        × ((r : LogRecord) × IsRecord r
            × ((front : Bytes) × (w.file.contents ≡ front ++ encode r))
            × ((k : Bytes) → (Storage.get k t).1 ≡ view_record r k (Storage.get k u).1)))

Journal-Again :
    (config : ServerConfig) (wal_file : Output) (u : Storage) (t : Server) (h : IsJournal u)
    → Started config wal_file t
    → wal_file.contents ≡ h.wal.file.contents
    → (written : Written h.wal h.records) → Again u h.wal t.store
unfolding Again
Journal-Again config wal_file u t h st contents (inl (ok, all)) =
    let held =
      Started-Holds config wal_file t h.records [] st
        (contents ∙ all ∙ sym (append-nil (encode_all h.records))) h.are no_record in
    inl (λ k. held_answers t.store u h.records held h.valid h.memory k (h.seen k))
Journal-Again config wal_file u t h st contents (inr (failed, (r, is, (n, part)))) =
    elim (Bool-cases (leb (length (encode r)) n)) [
      | inl whole ↦
          let rs = h.records ++ r ∷ [] in
          let full : encode_all h.records ++ take n (encode r) ≡ encode_all rs ++ [] =
            ap (λ b. encode_all h.records ++ b)
              (take_of_length-le n (encode r) (ground (arith, whole)))
            ∙ sym (encode_all-concat h.records r)
            ∙ sym (append-nil (encode_all rs)) in
          let held =
            Started-Holds config wal_file t rs [] st (contents ∙ part ∙ full)
              (All-append IsRecord h.records (r ∷ []) h.are (is, tt)) no_record in
          inr (
            failed,
            (
              r,
              is,
              (
                encode_all h.records,
                part
                    ∙ ap (λ b. encode_all h.records ++ b)
                        (take_of_length-le n (encode r) (ground (arith, whole))),
              ),
              λ k.
                  (get-used k t.store held.valid held.memory).0
                  ∙ held.seen k
                  ∙ view-concat h.records r k
                  ∙ ap (view_record r k) (sym (h.seen k) ∙ sym (get-used k u h.valid h.memory).0),
            ),
          )
      | inr cut ↦
          let held =
            Started-Holds config wal_file t h.records (take n (encode r)) st (contents ∙ part) h.are
              (read_record_torn r n is (ground (arith, cut))) in
          inl (λ k. held_answers t.store u h.records held h.valid h.memory k (h.seen k))
    ]

-- A server over a log of complete records runs SET, GET and DEL, whatever the outcomes of its flushes,
-- and stops at any point; over the log that it leaves, a server of the same configuration answers every
-- GET as the stopped one did. The one exception is a log that has failed with all bytes of one refused
-- record at the end of its file: that record is applied too. The store is in memory and unbounded, and no key or
-- value of a SET is longer than the log's reader takes.
pub restart-answers :
    (config : ServerConfig) (first second disk disk' : Output) (m m' : Moment) (s t : Server)
    (rs : List LogRecord) (cs : List Command) (w : Wal)
    → IsLogged config
    → All IsRecord rs
    → first.contents ≡ encode_all rs
    → set_up config disk first m ≡ some s
    → All IsLoggable cs
    → (run_commands cs s.store).0.wal ≡ some w
    → second.contents ≡ w.file.contents
    → set_up config disk' second m' ≡ some t
    → Again (run_commands cs s.store).0 w t.store
restart-answers config first second disk disk' m m' s t rs cs w c are contents start sized at left
      again =
    let st = set_up-Started config disk first m s c start in
    let h =
      run_commands-IsJournal cs s.store sized
        (Started-IsJournal config first s rs st contents are) in
    let same : h.wal ≡ w = some-injective h.wal w (sym h.at ∙ at) in
    subst (λ x. Again (run_commands cs s.store).0 x t.store) same
      (Journal-Again config second (run_commands cs s.store).0 t h
        (set_up-Started config disk' second m' t c again)
        (left ∙ ap (λ x. x.file.contents) (sym same)) h.written)
