-- ===== src/Storage/Locks.antt =====
-- storage/lockrepo.go, and NewLock of storage/data/lock.go.
-- A lock that is nil is `none`. A lock id has no wildcard of LIKE. Times are natural numbers, so
-- `attainedAt < now - threshold` is written with the threshold on the left.
use webhook_broker.Base.{
  ℕ, suc, ◌+◌, String, Bool, false, ◌==◌, ltb, str_eq, if◌then◌else◌, Option, none, some, List, [],
  ◌∷◌, ◌++◌, ◌≡◌, arith, str_eq_refl,
}
use webhook_broker.Storage.Tables.{LockRow, Tables, count_where, delete_where, update_where}
use webhook_broker.Storage.Transactions.{
  Error, db_error, duplicate_key, no_rows_updated, no_lock, already_locked, lockable_nil, Database,
  Statement, TxOp, ok, fail, in_transaction_exec, transactional_writes, single_row_write,
  single_row_write_lem,
}

-- NewLock, of the id of a lockable that is not nil.
unfoldable pub new_lock : Option String → ℕ → Option LockRow × Option Error
new_lock none now = (none, some lockable_nil)
new_lock (some id) now = (some (record { lock_id = id; attained_at = now }), none)

abbrev pub has_lock_id : String → LockRow → Bool
has_lock_id id r = str_eq r.lock_id id

-- How many rows hold the lock; lockId is the primary key.
unfoldable pub holders : String → Tables → ℕ
unfolding count_where
holders id t = count_where (has_lock_id id) t.lock

abbrev pub insert_lock : LockRow → Statement
insert_lock l t =
    if holders l.lock_id t == 0 then some (record t { lock = t.lock ++ l ∷ [] }, 1) else none

abbrev pub delete_locks : (LockRow → Bool) → Statement
delete_locks p t = some (record t { lock = delete_where p t.lock }, count_where p t.lock)

-- normalizeDBError with lockErrorMap.
unfoldable pub normalize_lock_error : Error → Error
normalize_lock_error duplicate_key = already_locked
normalize_lock_error e = e

abbrev pub normalized : Tables × Option Error → Tables × Option Error
normalized (t, none) = (t, none)
normalized (t, some e) = (t, some (normalize_lock_error e))

module _ (db : Database) (t : Tables) where
  unfoldable pub try_lock : Option LockRow → Tables × Option Error
  unfolding normalize_lock_error holders
  try_lock none = (t, some no_lock)
  try_lock (some l) = normalized (single_row_write db (insert_lock l) t)

  unfoldable pub release_lock : Option LockRow → Tables × Option Error
  release_lock none = (t, some no_lock)
  release_lock (some l) = single_row_write db (delete_locks (has_lock_id l.lock_id)) t

  unfoldable pub timeout_locks : ℕ → ℕ → Tables × Option Error
  timeout_locks now threshold =
      transactional_writes db
        (in_transaction_exec db (delete_locks (λ r. ltb (r.attained_at + threshold) now)) 0 ∷ []) t

  -- The existence check of RenewLock.
  abbrev pub check_held : String → TxOp
  check_held id i u =
      if db.exec_fails i
      then fail db_error
      else if holders id u == 0
      then fail no_rows_updated
      else ok u

  -- RenewLock: the tables, the lock, and the error.
  unfoldable pub renew_lock : ℕ → Option LockRow → Tables × Option LockRow × Option Error
  unfolding holders
  renew_lock now none = (t, none, some no_lock)
  renew_lock now (some l) =
      let (t', err) =
        transactional_writes db
          (in_transaction_exec db
              (λ u. some (
                record u {
                  lock =
                      update_where (has_lock_id l.lock_id) (λ r. record r { attained_at = now })
                        u.lock;
                },
                count_where (has_lock_id l.lock_id) u.lock,
              ))
              0
            ∷ check_held l.lock_id
            ∷ [])
          t in
      (t', elim err [ none ↦ some (record l { attained_at = now }) | some e ↦ some l ], err)

module _ (t : Tables) (l : LockRow) where
  holders_snoc :
      (rows : List LockRow)
      → count_where (has_lock_id l.lock_id) (rows ++ l ∷ [])
        ≡ suc (count_where (has_lock_id l.lock_id) rows)
  unfolding count_where
  holders_snoc [] = ground (arith, str_eq_refl l.lock_id)
  holders_snoc (r ∷ rs) = ground (arith, holders_snoc rs)

  try_lock_insert :
      (db : Database) (t' : Tables)
      → try_lock db t (some l) ≡ (t', none)
      → insert_lock l t ≡ some (t', 1)
  unfolding try_lock
  try_lock_insert db t' h = single_row_write_lem db (insert_lock l) t t' (ground arith)

-- When one node has the lock, another that tries it on a database that runs its statement is told
-- that it is already attained, and the tables are as the first left them.
pub try_lock-exclusive :
    (db db' : Database) (t t' : Tables) (l m : LockRow)
    → m.lock_id ≡ l.lock_id
    → try_lock db t (some l) ≡ (t', none)
    → db'.begin_fails ≡ false
    → db'.exec_fails 0 ≡ false
    → try_lock db' t' (some m) ≡ (t', some already_locked)
unfolding try_lock single_row_write normalize_lock_error holders
try_lock-exclusive db db' t t' l m same h begins runs =
    let e = try_lock_insert t l db t' h in
    let busy : (holders m.lock_id t' == 0) ≡ false = taken e in ground arith
  where
    taken : insert_lock l t ≡ some (t', 1) → (holders m.lock_id t' == 0) ≡ false
    taken e = ground (arith, holders_snoc t l t.lock)
