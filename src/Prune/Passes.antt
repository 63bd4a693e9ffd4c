-- ===== src/Prune/Passes.antt =====
-- The passes of PruneMessages, prune/service.go: nothing is lost that is not archived.
use webhook_broker.Base.{◌≤◌, String, Bool, ◌&&◌, not, ◌==◌, str_eq, ◌≡◌, ◌⊎◌}
use webhook_broker.Data.{job_delivered}
use webhook_broker.Storage.Tables.{JobRow, MessageRow, count_where}
use webhook_broker.Prune.Service.{PruneSetting, Pruning}
use webhook_broker.Prune.Safety.{Archived, Keeps}

-- The rows of a job that is not delivered.
abbrev pub pending : String → JobRow → Bool
pending k r = str_eq r.id k && not (r.status == job_delivered)

abbrev pub of_message : String → MessageRow → Bool
of_message id m = str_eq m.id id

module _ (s : PruneSetting) where
  -- What pruning never does: lose a job that is not delivered or is parked, or a message whose text
  -- was not written to the archives; the history of the writes stays.
  abbrev Safe : Pruning → Pruning → Type 0
  Safe p p' =
      ((k : String) → count_where (pending k) p.tables.job ≤ count_where (pending k) p'.tables.job)
      × (p'.tables.job_parking ≡ p.tables.job_parking)
      × ((id : String)
          → (count_where (of_message id) p.tables.message
              ≤ count_where (of_message id) p'.tables.message)
            ⊎ Archived s p'.director id)
      × Keeps s p.director p'.director

  -- No row of a job that is not delivered goes, no parked job changes, and each message that loses a
  -- row has a text, of some row of it with some jobs, that was written to the archives.
  abbrev pub Preserves : Pruning → Pruning → Type 0
  Preserves p p' =
      ((k : String) → count_where (pending k) p.tables.job ≤ count_where (pending k) p'.tables.job)
      × (p'.tables.job_parking ≡ p.tables.job_parking)
      × ((id : String)
          → (count_where (of_message id) p.tables.message
              ≤ count_where (of_message id) p'.tables.message)
            ⊎ Archived s p'.director id)
