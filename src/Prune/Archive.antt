-- ===== src/Prune/Archive.antt =====
-- prune/archivewriter.go: ArchiveWriteManager. The bucket is the blob library's: `Bucket` says how its
-- calls end, which are numbered; a write that succeeds says how many bytes it took, and a closed writer
-- replaces the object of its name. A rotation that Write starts in the background takes the mutex after
-- it: `rotations_due` counts those that wait, of which as many as `overtake` says take it before the
-- next Write does, and the others before Close does. `written` is the history of the texts whose write
-- succeeded; `buffered`, `object` and `copies` are what the open writer, the object of the name and the
-- rotated objects hold. A failed Copy is only logged.
use webhook_broker.Base.{
  ℕ, zero, suc, not, ◌+◌, ◌-◌, String, Bool, true, false, leb, ltb, if◌then◌else◌, Option, none,
  some, List, [], ◌∷◌,
}

pub record Bucket : Type 0 where
  pub new_writer : ℕ → Bool
  pub write : ℕ → String → Option ℕ
  pub close : ℕ → Bool
  pub copy : ℕ → Bool
  pub overtake : ℕ → ℕ

pub record ArchiveWriteManager : Type 0 where
  pub max_size : ℕ
  pub current_size : ℕ
  pub writer : Bool
  pub rotations_due : ℕ
  pub calls : ℕ
  pub written : List String
  pub buffered : List String
  pub object : List String
  pub copies : List (List String)

-- NewArchiveWriteManager, of the size that a reader gives, if it can be made, and whether the object
-- exists, if that can be told; `found` is what it then holds.
unfoldable pub new_archive_write_manager :
    Option ℕ → Option Bool → List String → ℕ → Option ArchiveWriteManager
new_archive_write_manager size none found max_size = none
new_archive_write_manager none (some true) found max_size = none
new_archive_write_manager none (some false) found max_size = some (record {
  max_size = max_size;
  current_size = 0;
  writer = false;
  rotations_due = 0;
  calls = 0;
  written = [];
  buffered = [];
  object = [];
  copies = [];
})
new_archive_write_manager (some size) (some exists) found max_size = some (record {
  max_size = max_size;
  current_size = size;
  writer = false;
  rotations_due = 0;
  calls = 0;
  written = [];
  buffered = [];
  object = found;
  copies = [];
})

module _ (bucket : Bucket) where
  -- rotate: the object is copied to another name, unless that fails.
  abbrev pub rotate : ArchiveWriteManager → ArchiveWriteManager
  rotate rm = record rm {
    calls = suc rm.calls;
    copies = if bucket.copy rm.calls then rm.object ∷ rm.copies else rm.copies;
  }

  -- rotateInBackground: the writer is closed and its object copied, unless the close fails.
  unfoldable pub rotate_in_background : ArchiveWriteManager → ArchiveWriteManager
  rotate_in_background rm =
      let due = record rm { rotations_due = rm.rotations_due - 1 } in
      if not rm.writer
      then rotate due
      else if bucket.close rm.calls
      then rotate
          (record due { writer = false; calls = suc rm.calls; object = rm.buffered; buffered = [] })
      else record due { calls = suc rm.calls }

  unfoldable pub rotate_all : ℕ → ArchiveWriteManager → ArchiveWriteManager
  unfolding rotate_in_background
  rotate_all zero rm = rm
  rotate_all (suc n) rm = rotate_all n (rotate_in_background rm)

  -- Write once there is a writer; the Boolean says whether it succeeded.
  unfoldable pub write_open : String → ArchiveWriteManager → ArchiveWriteManager × Bool
  write_open text rm = elim (bucket.write rm.calls text) [
    | none ↦ (record rm { calls = suc rm.calls }, false)
    | some n ↦ (
      record rm {
        calls = suc rm.calls;
        current_size = rm.current_size + n;
        rotations_due =
            if leb rm.max_size (rm.current_size + n)
            then suc rm.rotations_due
            else rm.rotations_due;
        written = text ∷ rm.written;
        buffered = text ∷ rm.buffered;
      },
      true,
    )
  ]

  -- Write once it has the mutex.
  unfoldable pub write_locked : String → ArchiveWriteManager → ArchiveWriteManager × Bool
  unfolding write_open
  write_locked text rm =
      if rm.writer
      then write_open text rm
      else if bucket.new_writer rm.calls
      then write_open text
          (record rm { calls = suc rm.calls; writer = true; current_size = 0; buffered = [] })
      else (record rm { calls = suc rm.calls }, false)

  -- Write, after the rotations that overtake it.
  unfoldable pub write_archive : String → ArchiveWriteManager → ArchiveWriteManager × Bool
  unfolding write_locked rotate_all
  write_archive text rm = write_locked text (
      rotate_all
        (if ltb rm.rotations_due (bucket.overtake rm.calls)
          then rm.rotations_due
          else bucket.overtake rm.calls)
        rm)

  -- Close, which waits for the rotations.
  unfoldable pub close_archive : ArchiveWriteManager → ArchiveWriteManager × Bool
  unfolding rotate_all
  close_archive rm =
      let done = rotate_all rm.rotations_due rm in
      if done.writer
      then (
        record done {
          calls = suc done.calls;
          object = if bucket.close done.calls then done.buffered else done.object;
        },
        bucket.close done.calls,
      )
      else (done, true)
