-- ===== src/Lib.antt =====
-- webhook-broker takes messages from producers and delivers each to the consumers of its channel by
-- HTTP. These modules model its core: how a message becomes jobs, how jobs wait and are handed to
-- workers, how a consumer is paused, and what the database does at each step.
--
-- Parts, and the files of the repository that they follow:
-- - Base: Booleans, lists and maps over native numbers, under the library's names.
-- - Text: the standard library's texts, decimal numbers and base64, as the code uses them, on lists
--   of bytes.
-- - Data: storage/data/*.go. A record for each stored object, with its QuickFix, IsInValidState and
--   constructor. A time is a count of nanoseconds from Go's zero time; xid.New and time.Now are
--   arguments. Data.Validity has what QuickFix promises. Cursors has the cursors of common.go and
--   the links of controllers/router.go, and Cursors.RoundTrip proves.
-- - Storage: storage/*.go over tables that are lists of rows. Tables has the rows and the clauses
--   of SQL, Transactions has storage/rdbms.go (a `Database` says what fails in one transaction; a
--   transaction that does not commit leaves the tables as they were; and what a DATETIME column keeps
--   of a time), Rows the INSERTs under the
--   keys of migration/sqls, Jobs, Dispatch and DeadJobs the writes of storage/deliveryjobrepo.go,
--   Parking storage/jobparkingrepo.go, Locks storage/lockrepo.go, Pausing
--   storage/dispatchpauserepo.go, Pruning the part of storage/messagerepo.go that pruning uses,
--   Cache storage/memcache.go, Pages the lists by page, Stakeholders storage/channelrepo.go and
--   storage/producerrepo.go, Cached their cached forms, Consumers storage/consumerrepo.go,
--   Summaries storage/dlqsummaryrepo.go. Caching, Coherence, ConsumerKeys, Counts, Dispatched,
--   Drained, Handout, Lifecycle, Ownership, Paused, Pruned, Ranks, Removal, RowKeys, Storing,
--   Updates and Walking prove.
-- - Dispatcher: dispatcher/*.go. Queue is queue.go, Lanes is lanes.go (State, Enqueue and Serve
--   define; Invariant, Admission, Scanning, Service, Next, Completion and Wakeup prove), Pause is
--   pause.go, Worker is worker.go, Backoff, Dispatching and Retrying are parts of msgdispatcher.go;
--   Delivery, Settling, Queueing and Exclusion prove, and Pause.Loaded has the registry against the
--   database.
-- - Parking: parking/*.go. Handoff is handoff.go, and Passage its channel with what runs of it keep; Drainer is drainer.go, and Draining (one visit),
--   Rounds (the loop), Liveness and Runs prove; Wiring is NewDrainer, from the settings of Config;
--   Signing has the signature of a request.
-- - Prune: prune/*.go. Archive is archivewriter.go, Service is service.go; Safety, Passes and Ends
--   prove.
-- - Controllers: controllers/*.go. Access has the checks of tokens (job.go, dlqdelete.go,
--   internaljobs.go, dispatchpause.go), JobStatus the POST of job.go, DeadJobs the requests of
--   dlqdelete.go and internaljobs.go and the requeue of job.go, PauseRequests the PUT and DELETE of
--   dispatchpause.go, Gateway hmac_middleware.go, Broadcast broadcast.go, Registration the PUT of
--   channel.go and producer.go, ConsumerRequests the PUT and DELETE of consumer.go with the cached
--   consumers; Transitions, DeadJobLaws, PauseAgreement, Signed, Accepted and Registered prove.
-- - Scheduler: scheduler/scheduler.go. Store has what it uses of storage/messagerepo.go and
--   storage/scheduledmessagerepo.go, Service its calls; Once proves.
-- - Config: config/dispatch_pause_config.go, two functions of config/config.go, and in GatewayAuth
--   config/gateway_auth_config.go with its section and its validation; Bounds proves.
-- - Dlq: dlq/updater.go in Updater; Counts (the first cycle) and Increments (the later ones) prove.
-- - Tests: concrete values, and the theorems at them.
--
-- How they interact: Dispatcher.Dispatching queues or parks jobs by Dispatcher.Pause and
-- Storage.Parking; Dispatcher.Lanes orders those that wait; Dispatcher.Worker takes one through the
-- writes of Storage.Jobs and, when the database refuses the hand-out, re-parks it. Parking.Drainer
-- moves parked jobs back by Storage.Parking under a lock of Storage.Locks and hands them to
-- Parking.Handoff. Controllers.PauseRequests writes pauses by Storage.Pausing and then
-- Dispatcher.Pause; Prune.Service deletes by Storage.Pruning what Prune.Archive has taken.
-- Parking.Signing signs what Controllers.Gateway checks, both by Config.GatewayAuth.
-- Controllers.Broadcast stores by Scheduler.Store, as the scheduler does. Dlq.Updater counts by
-- Storage.Summaries under a lock of Storage.Locks.
--
-- Loops are structural: over the lists that the code ranges over, by the number of a lane's jobs in
-- discardQueued, and by the attempts left in the hand-off. drain_round_robin takes fuel, one for
-- each round: as many as there are parked rows and one more are enough, since a round that is
-- followed by another moves a row. collect_prunable takes the limit as fuel, since a page that is
-- not the last adds a message, and delete_batches the number of ids, of which each batch takes one
-- or more. prune_passes makes at most so many passes as it is told: more passes than messages are
-- stored are enough, since a pass that is followed by another deletes a message. A client that
-- walks a list takes a number of requests: one more than there are rows is enough, since a page
-- that is not empty has a row that no page before had.
--
-- Parameters: crypto/hmac, the text of a time, container/heap with the laws that its documentation
-- states, the HTTP client's outcomes, the database's failures and its order of ids, the clock, the
-- consumers that a query returns, the blob buckets' answers and the JSON of an archived message.
--
-- Not modelled: goroutines and mutexes but as sequences of whole calls; the channel jobQueue's
-- bound; logs but for their number in the drainer; reads that only list rows; int64 overflow of a
-- delay; what became of an archived text after its write, though Archive has what the writer, the object and
-- the copies hold; the rounding of DATETIME columns but those that Storage.Tables names; the other HTTP controllers, the rest of the
-- configuration, and the collation of the database: texts that it compares equal are equal. Other
-- nodes are not interleaved with a drain run or a pruning pass.
mod Base
pub mod Text
pub mod Data
pub mod Storage
pub mod Dispatcher
pub mod Parking
pub mod Prune
pub mod Controllers
pub mod Scheduler
pub mod Config
pub mod Dlq
mod Tests
