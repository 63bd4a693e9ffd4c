-- ===== src/Prune/Service.antt =====
-- prune/service.go: archiveMessage and PruneMessages.
-- encoding/json is a parameter: the text of a message with its jobs, `none` if it cannot be encoded.
-- A pass of the loop is numbered; the
-- database may fail at the query of a page, at loading the jobs and at the deletion.
use webhook_broker.Base.{
  ℕ, zero, suc, String, Bool, if◌then◌else◌, Option, none, some, List, [], ◌∷◌, keep_if, str_eq,
  is_some,
}
use webhook_broker.Storage.Tables.{JobRow, MessageRow, Tables}
use webhook_broker.Storage.Transactions.{Error, db_error, Database}
use webhook_broker.Storage.Pruning.{completely_delivered, delete_messages_and_jobs}
use webhook_broker.Prune.Archive.{Bucket, ArchiveWriteManager, write_archive, close_archive}

pub record ArchiveDirector : Type 0 where
  pub local_archive_manager : ArchiveWriteManager
  pub remote_archive_manager : Option ArchiveWriteManager

pub data PruneError : Type 0 where
  init_failed : PruneError
  marshal_failed : PruneError
  local_failed : PruneError
  remote_failed : PruneError
  storage_failed : Error → PruneError

pub record Pruning : Type 0 where
  pub tables : Tables
  pub director : ArchiveDirector

-- What a run of PruneMessages meets.
pub record PruneSetting : Type 0 where
  pub marshal : MessageRow → List JobRow → Option String
  pub local_bucket : Bucket
  pub remote_bucket : Bucket
  pub precedes : String → String → Bool
  pub query_fails : ℕ → ℕ → Bool
  pub jobs_fail : ℕ → Bool
  pub delete_db : ℕ → Database
  pub before : ℕ → ℕ

-- The jobs of a message, of those that GetJobsForMessages loads.
abbrev pub jobs_of : Tables → MessageRow → List JobRow
jobs_of t m = keep_if (λ (r : JobRow). str_eq r.message_id m.id) t.job

module _ (s : PruneSetting) where
  unfoldable pub write_remote : String → ArchiveDirector → ArchiveDirector × Option PruneError
  unfolding write_archive
  write_remote text director = elim director.remote_archive_manager [
    | none ↦ (director, none)
    | some rm ↦
        let (rm', fine) = write_archive s.remote_bucket text rm in
        (
          record director { remote_archive_manager = some rm' },
          if fine then none else some remote_failed,
        )
  ]

  unfoldable pub archive_message :
      MessageRow → List JobRow → ArchiveDirector → ArchiveDirector × Option PruneError
  unfolding write_remote
  archive_message m jobs director = elim (s.marshal m jobs) [
    | none ↦ (director, some marshal_failed)
    | some text ↦
        let (rm, fine) = write_archive s.local_bucket text director.local_archive_manager in
        let written = record director { local_archive_manager = rm } in
        if fine then write_remote text written else (written, some local_failed)
  ]

  -- The loop over a page of messages: the director, the ids to delete, and the error at which it broke.
  unfoldable pub archive_messages :
      Tables → List MessageRow → ArchiveDirector → ArchiveDirector × List String × Option PruneError
  unfolding archive_message
  archive_messages t [] director = (director, [], none)
  archive_messages t (m ∷ ms) director =
      let (director', err) = archive_message m (jobs_of t m) director in
      let (last, ids, failed) = archive_messages t ms director' in
      if is_some err then (director', [], err) else (last, m.id ∷ ids, failed)

  -- The deletion and the rest of a pass: `rest` is the loop from the next pass.
  unfoldable pub delete_archived :
      ℕ
      → List String
      → Option PruneError
      → (Pruning → Pruning × Option PruneError)
      → Pruning
      → Pruning × Option PruneError
  delete_archived pass [] none rest p = rest p
  delete_archived pass [] (some e) rest p = (p, some e)
  delete_archived pass (id ∷ ids) failed rest p =
      let (t, err) = delete_messages_and_jobs (s.delete_db pass) (id ∷ ids) p.tables in
      let deleted = record p { tables = t } in
      let onward = rest deleted in
      elim err [
        | some e ↦ (deleted, some (storage_failed e))
        | none ↦ if is_some failed then (deleted, none) else onward
      ]

  -- The loop of PruneMessages, for at most so many passes from one on.
  unfoldable pub prune_passes : ℕ → ℕ → Pruning → Pruning × Option PruneError
  unfolding archive_messages delete_archived completely_delivered
  prune_passes zero pass p = (p, none)
  prune_passes (suc fuel) pass p =
      elim (completely_delivered s.precedes (s.query_fails pass) p.tables (s.before pass) 1000) [
        | [] ↦ (p, none)
        | m ∷ ms ↦
            if s.jobs_fail pass
            then (p, some (storage_failed db_error))
            else (let (director, ids, failed) = archive_messages p.tables (m ∷ ms) p.director in
                delete_archived pass ids failed (prune_passes fuel (suc pass))
                  (record p { director = director }))
      ]

  -- Close of an ArchiveDirector; failures are only logged.
  unfoldable pub close_director : ArchiveDirector → ArchiveDirector
  unfolding close_archive
  close_director director = record {
    local_archive_manager = (close_archive s.local_bucket director.local_archive_manager).0;
    remote_archive_manager = elim director.remote_archive_manager [
      | none ↦ none
      | some rm ↦ some (close_archive s.remote_bucket rm).0
    ];
  }

  -- PruneMessages, with the director that initArchiveDirector makes, or none if it fails.
  unfoldable pub prune_messages :
      ℕ
      → Bool
      → Option ArchiveDirector
      → Tables
      → Tables × Option ArchiveDirector × Option PruneError
  unfolding prune_passes close_director
  prune_messages fuel enabled none t = (t, none, if enabled then some init_failed else none)
  prune_messages fuel enabled (some director) t =
      let (p, err) = prune_passes fuel 0 (record { tables = t; director = director }) in
      if enabled then (p.tables, some (close_director p.director), err) else (t, none, none)
