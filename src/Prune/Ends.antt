-- ===== src/Prune/Ends.antt =====
-- The passes of PruneMessages end, prune/service.go: a pass that is followed by another deletes a
-- message.
use webhook_broker.Base.{
  ℕ, zero, suc, ◌<◌, String, Option, some, List, [], ◌∷◌, All, ◌≡◌, refl, subst, arith, inl, inr,
  ◌⊎◌, Bool-cases, Option-cases,
}
use webhook_broker.Storage.Tables.{MessageRow, Tables}
use webhook_broker.Storage.Pruning.{completely_delivered, delete_messages_and_jobs}
use webhook_broker.Prune.Service.{
  ArchiveDirector, PruneSetting, PruneError, Pruning, jobs_of, archive_message, archive_messages,
  delete_archived, prune_passes,
}
use webhook_broker.Storage.Removal.{stored, Present, completely_delivered-All, deleted_fewer}

module _ (s : PruneSetting) where
  -- The ids to delete start with the first message, or its archiving failed.
  abbrev Leading : MessageRow → List String → Option PruneError → Type 0
  Leading m ids failed =
      ((rest : List String) × (ids ≡ m.id ∷ rest))
      ⊎ ((e : PruneError) × (ids ≡ []) × (failed ≡ some e))

  archive_messages-Leading :
      (t : Tables) (m : MessageRow) (ms : List MessageRow) (director : ArchiveDirector)
      → Leading m
          (archive_messages s t (m ∷ ms) director).1
          (archive_messages s t (m ∷ ms) director).2
  unfolding archive_messages
  archive_messages-Leading t m ms director =
      let r = archive_message s m (jobs_of t m) director in
      elim (Option-cases r.1) [
        | inl none_e ↦ inl ((archive_messages s t ms r.0).1, rw none_e refl)
        | inr (e, some_e) ↦ inr (e, rw some_e refl, rw some_e refl)
      ]

  module _ (pass : ℕ) (rest rest' : Pruning → Pruning × Option PruneError) (p : Pruning)
      (same : (q : Pruning) → stored q.tables < stored p.tables → rest q ≡ rest' q) where
    delete_archived_same :
        (m : MessageRow) (ids : List String) (failed : Option PruneError)
        → Present p.tables.message m
        → Leading m ids failed
        → delete_archived s pass ids failed rest p ≡ delete_archived s pass ids failed rest' p
    unfolding delete_archived
    delete_archived_same m ids failed here (inr (e, none_e, some_e)) = rw (none_e, some_e) refl
    delete_archived_same m ids failed here (inl (later, e)) =
        let r = delete_messages_and_jobs (s.delete_db pass) (m.id ∷ later) p.tables in
        elim (Option-cases r.1) [
          | inl clean ↦
              let next =
                same (record p { tables = r.0 })
                  (deleted_fewer (s.delete_db pass) m later p.tables here clean) in
              rw (e, delete_archived, clean, next) refl
          | inr (x, broken) ↦ rw (e, delete_archived, broken) refl
        ]

  -- One pass more than the messages stored is enough: a further one changes nothing.
  pub prune_passes_enough :
      (fuel pass : ℕ) (p : Pruning)
      → stored p.tables < fuel
      → prune_passes s fuel pass p ≡ prune_passes s (suc fuel) pass p
  unfolding prune_passes
  prune_passes_enough zero pass p h = absurd (omega arith)
  prune_passes_enough (suc k) pass p h =
      go (λ q fewer. prune_passes_enough k (suc pass) q fewer)
        (completely_delivered s.precedes (s.query_fails pass) p.tables (s.before pass) 1000) refl
        (completely_delivered-All s.precedes (s.query_fails pass) p.tables (s.before pass))
    where
      go :
          ((q : Pruning)
            → stored q.tables < k
            → prune_passes s k (suc pass) q ≡ prune_passes s (suc k) (suc pass) q)
          → (ms : List MessageRow)
          → completely_delivered s.precedes (s.query_fails pass) p.tables (s.before pass) 1000 ≡ ms
          → All
              (Present p.tables.message)
              (completely_delivered s.precedes (s.query_fails pass) p.tables (s.before pass) 1000)
          → prune_passes s (suc k) pass p ≡ prune_passes s (suc (suc k)) pass p
      go again [] e all = rw (prune_passes, e) refl
      go again (m ∷ ms) e all = elim (Bool-cases (s.jobs_fail pass)) [
        | inl broken ↦ rw (prune_passes, e, broken) refl
        | inr works ↦
            let r = archive_messages s p.tables (m ∷ ms) p.director in
            let here = (subst (All (Present p.tables.message)) e all).0 in
            let step =
              delete_archived_same pass (prune_passes s k (suc pass))
                (prune_passes s (suc k) (suc pass)) (record p { director = r.0 })
                (λ q fewer. again q (omega (arith, fewer, h))) m r.1 r.2 here
                (archive_messages-Leading p.tables m ms p.director) in
            rw (prune_passes, e, works) step
      ]
