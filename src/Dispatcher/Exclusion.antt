-- ===== src/Dispatcher/Exclusion.antt =====
-- dispatcher/msgdispatcher.go: inLockRun excludes the other nodes.
use webhook_broker.Base.{ℕ, suc, String, false, ◌==◌, Option, none, some, ◌≡◌, arith}
use webhook_broker.Storage.Transactions.{Error, healthy, single_row_write}
use webhook_broker.Storage.Locks.{holders, new_lock, normalize_lock_error, try_lock}
use webhook_broker.Dispatcher.Dispatching.{Node, in_lock_run}

module _ (now : ℕ → ℕ) (n : Node) (id : String) (run : Node → Node × Option Error) where
  -- While some node holds the lock, inLockRun does not run its function, and returns no error.
  pub in_lock_run-held :
      (holders id n.tables == 0) ≡ false
      → in_lock_run (λ i. healthy) now n (some id) run ≡ (record n { calls = suc n.calls }, none)
  unfolding in_lock_run new_lock try_lock normalize_lock_error single_row_write
  in_lock_run-held taken = ground arith
