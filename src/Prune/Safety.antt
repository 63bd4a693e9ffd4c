-- ===== src/Prune/Safety.antt =====
-- What PruneMessages may delete, prune/service.go.
use webhook_broker.Base.{
  ℕ, zero, suc, ltb, if◌then◌else◌, refl, ap, ◌∙◌, String, Bool, true, ◌&&◌, str_eq, none, some,
  List, [], ◌∷◌, All, ◌≡◌, subst, arith, inl, inr, Bool-cases, Option-cases, eq_iff, str_eq_refl,
}
use webhook_broker.Storage.Tables.{JobRow, MessageRow, Tables, count_where}
use webhook_broker.Storage.Parking.{listed}
use webhook_broker.Storage.Pruning.{unfinished, prunable}
use webhook_broker.Storage.Pruned.{Prunable}
use webhook_broker.Prune.Archive.{
  Bucket, ArchiveWriteManager, rotate_in_background, rotate_all, write_open, write_locked,
  write_archive,
}
use webhook_broker.Prune.Service.{
  ArchiveDirector, PruneSetting, jobs_of, write_remote, archive_message, archive_messages,
}

-- Whether a write of the text to each archive that is configured has succeeded.
unfoldable pub in_archives : ArchiveDirector → String → Bool
in_archives director text =
    listed director.local_archive_manager.written text
    && (elim director.remote_archive_manager [ none ↦ true | some rm ↦ listed rm.written text ])

-- A rotation leaves the history of the texts.
rotate_all-written :
    (bucket : Bucket) (n : ℕ) (rm : ArchiveWriteManager)
    → (rotate_all bucket n rm).written ≡ rm.written
unfolding rotate_all rotate_in_background
rotate_all-written bucket zero rm = refl
rotate_all-written bucket (suc n) rm =
    ground (arith, rotate_all-written bucket n (rotate_in_background bucket rm))

write_locked-written :
    (bucket : Bucket) (text x : String) (rm : ArchiveWriteManager)
    → let (rm', fine) = write_locked bucket text rm in
      (listed rm.written x ≡ true → listed rm'.written x ≡ true)
      × (fine ≡ true → listed rm'.written text ≡ true)
unfolding write_locked write_open
write_locked-written bucket text x rm = (λ h. ground arith, λ h. ground (arith, str_eq_refl text))

-- The history of a writer has the texts whose write succeeded.
write_archive-written :
    (bucket : Bucket) (text x : String) (rm : ArchiveWriteManager)
    → let (rm', fine) = write_archive bucket text rm in
      (listed rm.written x ≡ true → listed rm'.written x ≡ true)
      × (fine ≡ true → listed rm'.written text ≡ true)
unfolding write_archive
write_archive-written bucket text x rm =
    let n =
      (if ltb rm.rotations_due (bucket.overtake rm.calls)
        then rm.rotations_due
        else bucket.overtake rm.calls) in
    let same = rotate_all-written bucket n rm in
    let w = write_locked-written bucket text x (rotate_all bucket n rm) in
    (λ h. w.0 (ap (λ l. listed l x) same ∙ h), w.1)

module _ (s : PruneSetting) where
  archive_message-keeps :
      (m : MessageRow) (jobs : List JobRow) (director : ArchiveDirector) (x : String)
      → in_archives director x ≡ true
      → in_archives (archive_message s m jobs director).0 x ≡ true
  unfolding archive_message write_remote in_archives
  archive_message-keeps m jobs director x h = elim (Option-cases (s.marshal m jobs)) [
    | inl e ↦ ground arith
    | inr (text, e) ↦
        let near = write_archive-written s.local_bucket text x director.local_archive_manager in
        elim (Option-cases director.remote_archive_manager) [
          | inl alone ↦ ground (arith, near.0)
          | inr (rm, both) ↦
              ground (arith, near.0, (write_archive-written s.remote_bucket text x rm).0)
        ]
  ]

  archive_message-takes :
      (m : MessageRow) (jobs : List JobRow) (director : ArchiveDirector)
      → (archive_message s m jobs director).1 ≡ none
      → (text : String) × (s.marshal m jobs ≡ some text)
        × (in_archives (archive_message s m jobs director).0 text ≡ true)
  unfolding archive_message write_remote in_archives
  archive_message-takes m jobs director h = elim (Option-cases (s.marshal m jobs)) [
    | inl e ↦ absurd (ground arith)
    | inr (text, e) ↦
        let near = write_archive-written s.local_bucket text text director.local_archive_manager in
        elim (Option-cases director.remote_archive_manager) [
          | inl alone ↦ (text, e, ground (arith, near.1))
          | inr (rm, both) ↦ (
            text,
            e,
            ground (arith, near.1, (write_archive-written s.remote_bucket text text rm).1),
          )
        ]
  ]

  -- The text of some row of the message, with some jobs, was written to the archives.
  abbrev pub Archived : ArchiveDirector → String → Type 0
  Archived director id =
      (m : MessageRow) × (jobs : List JobRow) × (text : String) × (m.id ≡ id)
      × (s.marshal m jobs ≡ some text)
      × (in_archives director text ≡ true)

  abbrev pub Keeps : ArchiveDirector → ArchiveDirector → Type 0
  Keeps d d' = (x : String) → in_archives d x ≡ true → in_archives d' x ≡ true

  -- The ids to delete are those of messages that are archived, and that have no unfinished job.
  pub archive_messages-Archived :
      (t : Tables) (before : ℕ) (ms : List MessageRow) (director : ArchiveDirector)
      → All (Prunable s.precedes t before) ms
      → let (d, ids, failed) = archive_messages s t ms director in
        Keeps director d
        × ((id : String)
            → listed ids id ≡ true
            → Archived d id × (count_where (unfinished id) t.job ≡ 0))
  unfolding archive_messages prunable
  archive_messages-Archived t before [] director h = (λ x k. k, λ id e. absurd (ground arith))
  archive_messages-Archived t before (m ∷ ms) director h =
      let here = archive_message s m (jobs_of t m) director in
      let (keeps, rest) = archive_messages-Archived t before ms here.0 h.1 in
      elim (Option-cases here.1) [
        | inr (x, e) ↦
            simp e (archive_message-keeps m (jobs_of t m) director, λ id k. absurd (ground arith))
        | inl e ↦
            let (text, enc, stored) = archive_message-takes m (jobs_of t m) director e in
            simp e (
              λ x k. keeps x (archive_message-keeps m (jobs_of t m) director x k),
              λ id k. elim (Bool-cases (str_eq m.id id)) [
                | inl same ↦
                    let named = (eq_iff m.id id).0 same in
                    (
                      (m, jobs_of t m, text, named, enc, keeps text stored),
                      subst (λ i. count_where (unfinished i) t.job ≡ 0) named (ground (arith, h.0)),
                    )
                | inr other ↦ rest id (ground arith)
              ],
            )
      ]
