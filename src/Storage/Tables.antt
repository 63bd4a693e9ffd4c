-- ===== src/Storage/Tables.antt =====
-- The tables that the repositories write, as migration/sqls declares them, and the clauses that
-- their SQL statements share. A table is its list of rows. An id is an xid, which has no wildcard
-- of LIKE, so `id like ?` compares. A DATETIME column keeps `stored_time` of a time, whole seconds. The
-- columns pausedAt, last_checked_at, the times of channels and producers, and the statusChangedAt that a
-- write of a job's status sets are modelled so; the other times are kept as they are given.
use webhook_broker.Base.{ℕ, suc, String, Bool, false, ◌||◌, str_eq, if◌then◌else◌, List, [], ◌∷◌}
use webhook_broker.Data.{global_dispatch_pause_scope, DispatchPause}

-- A row of `job`.
pub record JobRow : Type 0 where
  pub id : String
  pub message_id : String
  pub consumer_id : String
  pub status : ℕ
  pub dispatch_received_at : ℕ
  pub status_changed_at : ℕ
  pub earliest_next_attempt_at : ℕ
  pub retry_attempt_count : ℕ
  pub created_at : ℕ
  pub updated_at : ℕ
  pub priority : ℕ
  pub incremental_timeout : ℕ

-- A row of `job_parking`.
pub record ParkedRow : Type 0 where
  pub seq : ℕ
  pub id : String
  pub message_id : String
  pub consumer_id : String
  pub dispatch_received_at : ℕ
  pub retry_attempt_count : ℕ
  pub earliest_next_attempt_at : ℕ
  pub priority : ℕ
  pub incremental_timeout : ℕ
  pub created_at : ℕ
  pub parked_at : ℕ

-- A row of `lock`.
pub record LockRow : Type 0 where
  pub lock_id : String
  pub attained_at : ℕ

-- The columns of `message` that a dispatch and the pruning read and write.
pub record MessageRow : Type 0 where
  pub id : String
  pub created_at : ℕ
  pub status : ℕ
  pub outboxed_at : ℕ
  pub updated_at : ℕ

-- `next_seq` is the next AUTO_INCREMENT value of job_parking.
pub record Tables : Type 0 where
  pub job : List JobRow
  pub job_parking : List ParkedRow
  pub next_seq : ℕ
  pub dispatch_pause : List DispatchPause
  pub lock : List LockRow
  pub message : List MessageRow

module _ {ℓ} {A : Type ℓ} where
  -- UPDATE … WHERE: the rows, and how many were updated.
  unfoldable pub update_where : (A → Bool) → (A → A) → List A → List A
  update_where p f [] = []
  update_where p f (x ∷ xs) = (if p x then f x else x) ∷ update_where p f xs

  unfoldable pub count_where : (A → Bool) → List A → ℕ
  count_where p [] = 0
  count_where p (x ∷ xs) = let n = count_where p xs in if p x then suc n else n

  -- DELETE … WHERE
  unfoldable pub delete_where : (A → Bool) → List A → List A
  delete_where p [] = []
  delete_where p (x ∷ xs) = let rest = delete_where p xs in if p x then rest else x ∷ rest

-- EXISTS (… d.scope IN (consumer, '__global__'))
unfoldable pub effectively_paused : List DispatchPause → String → Bool
effectively_paused [] consumer = false
effectively_paused (d ∷ ds) consumer =
    (str_eq d.scope consumer || str_eq d.scope global_dispatch_pause_scope)
    || effectively_paused ds consumer
