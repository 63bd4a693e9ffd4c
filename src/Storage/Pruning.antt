-- ===== src/Storage/Pruning.antt =====
-- The part of storage/messagerepo.go that pruning uses: which messages are completely delivered, and
-- their deletion. `query_fails` says at which page the query fails, and `precedes` is the database's
-- order of ids.
use webhook_broker.Base.{
  ℕ, zero, suc, String, Bool, true, ◌&&◌, not, ◌==◌, ltb, leb, str_eq, if◌then◌else◌, Option, none,
  some, List, [], ◌∷◌, ◌++◌, length, take, drop, keep_if,
}
use webhook_broker.Data.{job_delivered, msg_status_dispatched}
use webhook_broker.Storage.Tables.{JobRow, ParkedRow, MessageRow, Tables, count_where, delete_where}
use webhook_broker.Storage.Transactions.{
  Error, Database, Statement, TxOp, in_transaction_exec, transactional_writes,
}
use webhook_broker.Storage.Parking.{listed}

-- The jobs of a message that are not delivered, and its parked ones.
abbrev pub unfinished : String → JobRow → Bool
unfinished id r = str_eq id r.message_id && not (r.status == job_delivered)

abbrev pub parked_for : String → ParkedRow → Bool
parked_for id r = str_eq r.message_id id

-- pruneMessageQuery
unfoldable pub prunable : Tables → ℕ → MessageRow → Bool
unfolding count_where
prunable t before m =
    m.status == msg_status_dispatched
    && (leb m.created_at before
        && (count_where (unfinished m.id) t.job == 0
            && count_where (parked_for m.id) t.job_parking == 0))

module _ (precedes : String → String → Bool) where
  -- ORDER BY createdAt desc, id desc
  abbrev pub newer : MessageRow → MessageRow → Bool
  newer m n =
      if m.created_at == n.created_at then precedes n.id m.id else ltb n.created_at m.created_at

  unfoldable pub insert_newest : MessageRow → List MessageRow → List MessageRow
  insert_newest m [] = m ∷ []
  insert_newest m (n ∷ ns) = if newer n m then n ∷ insert_newest m ns else m ∷ n ∷ ns

  unfoldable pub order_messages : List MessageRow → List MessageRow
  unfolding insert_newest
  order_messages [] = []
  order_messages (m ∷ ms) = insert_newest m (order_messages ms)

  -- The condition of a page after the first, from the last message of the page before.
  abbrev pub after_cursor : Option MessageRow → MessageRow → Bool
  after_cursor none m = true
  after_cursor (some c) m = precedes m.id c.id && leb m.created_at c.created_at

  abbrev pub last_of : MessageRow → List MessageRow → MessageRow
  last_of m [] = m
  last_of m (n ∷ ns) = last_of n ns

  unfoldable pub prunable_page : Tables → ℕ → Option MessageRow → List MessageRow
  unfolding prunable order_messages
  prunable_page t before cursor =
      take 100
        (order_messages (keep_if (λ m. prunable t before m && after_cursor cursor m) t.message))

  -- The loop of GetMessagesFromBeforeDurationThatAreCompletelyDelivered over at most so many pages; a
  -- page that is not the last has a message, so `limit` pages are enough.
  unfoldable pub collect_prunable :
      ℕ → (ℕ → Bool) → Tables → ℕ → ℕ → ℕ → Option MessageRow → List MessageRow → List MessageRow
  unfolding prunable_page
  collect_prunable zero query_fails t before limit page cursor got = got
  collect_prunable (suc fuel) query_fails t before limit page cursor got =
      if query_fails page then got else elim (prunable_page t before cursor) [
        | [] ↦ got
        | m ∷ ms ↦
            let all = got ++ m ∷ ms in
            let rest =
              collect_prunable fuel query_fails t before limit (suc page) (some (last_of m ms))
                all in
            if leb limit (length all) then all else rest
      ]

  unfoldable pub completely_delivered : (ℕ → Bool) → Tables → ℕ → ℕ → List MessageRow
  unfolding collect_prunable
  completely_delivered query_fails t before limit =
      collect_prunable limit query_fails t before limit 0 none []

-- The two statements of one batch of DeleteMessagesAndJobs.
abbrev pub delete_jobs_of : List String → Statement
delete_jobs_of ids t =
    let p = λ (r : JobRow). listed ids r.message_id in
    some (record t { job = delete_where p t.job }, count_where p t.job)

abbrev pub delete_messages_of : List String → Statement
delete_messages_of ids t =
    let p = λ (m : MessageRow). listed ids m.id in
    some (record t { message = delete_where p t.message }, count_where p t.message)

module _ (db : Database) where
  -- The statements over the batches of at most 100 ids.
  unfoldable pub delete_batches : ℕ → List String → List TxOp
  delete_batches zero ids = []
  delete_batches (suc fuel) [] = []
  delete_batches (suc fuel) (id ∷ ids) =
      let batch = take 100 (id ∷ ids) in
      in_transaction_exec db (delete_jobs_of batch) 0
      ∷ in_transaction_exec db (delete_messages_of batch) 0
      ∷ delete_batches fuel (drop 100 (id ∷ ids))

  unfoldable pub delete_messages_and_jobs : List String → Tables → Tables × Option Error
  unfolding delete_batches
  delete_messages_and_jobs [] t = (t, none)
  delete_messages_and_jobs (id ∷ ids) t =
      transactional_writes db (delete_batches (length (id ∷ ids)) (id ∷ ids)) t

  -- DeleteMessage
  unfoldable pub delete_message : String → Tables → Tables × Option Error
  delete_message id t =
      transactional_writes db (in_transaction_exec db (delete_messages_of (id ∷ [])) 0 ∷ []) t
