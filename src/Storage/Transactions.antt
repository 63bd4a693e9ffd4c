-- ===== src/Storage/Transactions.antt =====
-- storage/rdbms.go: transactionalOperations, inTransactionExec and transactionalWrites.
-- The database may fail to begin, to run a statement or to commit a transaction: `Database` says
-- what it does in one transaction, its statements counted from 0. A transaction that does not
-- commit leaves the tables as they were, which is what a rollback is. `stored_time` is what a column
-- keeps of a time: a DATETIME of MySQL has whole seconds.
use Prim.Native.Nat.{◌/◌}
use webhook_broker.Base.{
  ℕ, suc, ◌*◌, Bool, true, false, ◌&&◌, not, ◌==◌, ltb, if◌then◌else◌, Option, none, some, List, [],
  ◌∷◌, ◌≡◌, refl, arith, inl, inr, Bool-cases,
}
use webhook_broker.Storage.Tables.{Tables}

pub data Error : Type 0 where
  db_error : Error
  duplicate_key : Error
  no_rows_updated : Error
  invalid_state_to_save : Error
  no_lock : Error
  already_locked : Error
  lockable_nil : Error

pub record Database : Type 0 where
  pub begin_fails : Bool
  pub exec_fails : ℕ → Bool
  pub commit_fails : Bool
  pub stored_time : ℕ → ℕ

-- How a function of a transaction ends.
pub data TxResult : Type 0 where
  ok : Tables → TxResult
  fail : Error → TxResult
  panic : TxResult

-- A statement: `none` is refused by a constraint; otherwise the tables and the rows affected.
abbrev pub Statement : Type 0
Statement = Tables → Option (Tables × ℕ)

-- A function of a transaction, told the number of its first statement; it runs one statement.
abbrev pub TxOp : Type 0
TxOp = ℕ → Tables → TxResult

-- inTransactionExec; an expected count of 0 is not checked.
unfoldable pub in_transaction_exec : Database → Statement → ℕ → TxOp
in_transaction_exec db statement expected i t =
    if db.exec_fails i then fail db_error else elim (statement t) [
      | none ↦ fail duplicate_key
      | some (t', n) ↦ if ltb 0 expected && not (n == expected) then fail no_rows_updated else ok t'
    ]

-- transactionalOperations: the tables afterwards and the error. The deferred function recovers a
-- panic and rolls back, and `err` stays nil.
unfoldable pub transactional_operations :
    Database → (Tables → TxResult) → Tables → Tables × Option Error
transactional_operations db op t = if db.begin_fails then (t, some db_error) else elim (op t) [
  | ok t' ↦ if db.commit_fails then (t, some db_error) else (t', none)
  | fail e ↦ (t, some e)
  | panic ↦ (t, none)
]

-- The loop of transactionalWrites over its functions.
unfoldable pub run_ops : List TxOp → ℕ → Tables → TxResult
run_ops [] i t = ok t
run_ops (op ∷ ops) i t = elim (op i t) [
  | ok t' ↦ run_ops ops (suc i) t'
  | fail e ↦ fail e
  | panic ↦ panic
]

unfoldable pub transactional_writes : Database → List TxOp → Tables → Tables × Option Error
unfolding run_ops transactional_operations
transactional_writes db ops t = transactional_operations db (run_ops ops 0) t

-- transactionalSingleRowWriteExec
unfoldable pub single_row_write : Database → Statement → Tables → Tables × Option Error
unfolding transactional_writes in_transaction_exec
single_row_write db statement t =
    transactional_writes db (in_transaction_exec db statement 1 ∷ []) t

-- A database that does what it is asked.
abbrev pub healthy : Database
healthy = record {
  begin_fails = false;
  exec_fails = λ i. false;
  commit_fails = false;
  stored_time = λ t. t / 1000000000 * 1000000000;
}

-- A transaction that returns an error has changed nothing.
pub transactional_operations_atomic :
    (db : Database) (op : Tables → TxResult) (t : Tables) (e : Error)
    → (transactional_operations db op t).1 ≡ some e
    → (transactional_operations db op t).0 ≡ t
unfolding transactional_operations
transactional_operations_atomic db op t e h = ground arith

-- What holds of the tables before a transaction, and of those its function returns, holds after it.
pub committed :
    (P : Tables → Type 0) (db : Database) (op : Tables → TxResult) (t : Tables)
    → P t
    → ((t' : Tables) → op t ≡ ok t' → P t')
    → P (transactional_operations db op t).0
unfolding transactional_operations
committed P db op t before after = go (op t) refl
  where
    go : (r : TxResult) → op t ≡ r → P (transactional_operations db op t).0
    go (ok t') e = elim (Bool-cases db.begin_fails) [
      | inl b ↦ simp b before
      | inr b ↦ elim (Bool-cases db.commit_fails) [
        | inl c ↦ simp (b, e, c) before
        | inr c ↦ simp (b, e, c) (after t' e)
      ]
    ]
    go (fail x) e = elim (Bool-cases db.begin_fails) [
      | inl b ↦ simp b before
      | inr b ↦ simp (b, e) before
    ]
    go panic e = elim (Bool-cases db.begin_fails) [
      | inl b ↦ simp b before
      | inr b ↦ simp (b, e) before
    ]

-- A single-row write succeeds only if its statement affects exactly one row, and then has done it.
pub single_row_write_lem :
    (db : Database) (statement : Statement) (t t' : Tables)
    → single_row_write db statement t ≡ (t', none)
    → statement t ≡ some (t', 1)
unfolding single_row_write
single_row_write_lem db statement t t' h = ground arith

pub single_row_write_atomic :
    (db : Database) (statement : Statement) (t : Tables) (e : Error)
    → (single_row_write db statement t).1 ≡ some e
    → (single_row_write db statement t).0 ≡ t
unfolding single_row_write
single_row_write_atomic db statement t e h = ground arith

-- A statement of which rows are expected succeeds only if it affects so many.
pub in_transaction_exec_lem :
    (db : Database) (statement : Statement) (n i : ℕ) (t t' : Tables)
    → ltb 0 n ≡ true
    → in_transaction_exec db statement n i t ≡ ok t'
    → statement t ≡ some (t', n)
unfolding in_transaction_exec
in_transaction_exec_lem db statement n i t t' some_expected h = ground arith

-- A first function of a transaction that is ok, and the others.
pub run_ops_cons :
    (a : TxOp) (ops : List TxOp) (i : ℕ) (t t' : Tables)
    → run_ops (a ∷ ops) i t ≡ ok t'
    → (u : Tables) × (a i t ≡ ok u) × (run_ops ops (suc i) u ≡ ok t')
unfolding run_ops
run_ops_cons a ops i t t' h = go (a i t) refl
  where
    go :
        (r : TxResult) → a i t ≡ r → (u : Tables) × (a i t ≡ ok u) × (run_ops ops (suc i) u ≡ ok t')
    go (ok u) e = (u, e, ground arith)
    go (fail x) e = absurd (ground arith)
    go panic e = absurd (ground arith)

-- Two functions of a transaction that are both ok.
pub run_ops_two :
    (a b : TxOp) (i : ℕ) (t t' : Tables)
    → run_ops (a ∷ b ∷ []) i t ≡ ok t'
    → (u : Tables) × (a i t ≡ ok u) × (b (suc i) u ≡ ok t')
unfolding run_ops
run_ops_two a b i t t' h = go (a i t) refl
  where
    go : (r : TxResult) → a i t ≡ r → (u : Tables) × (a i t ≡ ok u) × (b (suc i) u ≡ ok t')
    go (ok u) e = (u, e, ground arith)
    go (fail x) e = absurd (ground arith)
    go panic e = absurd (ground arith)
