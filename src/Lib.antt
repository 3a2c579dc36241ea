-- ===== src/Lib.antt =====
-- Calligraphy, a durable job processing system in Go: its core as definitions, with the
-- theorems that make it correct.
--
-- THE PROGRAM. A client submits a job to the API, which writes a row to Postgres and an
-- envelope to a Redis stream. A worker fetches envelopes, claims each job with a conditional
-- UPDATE that bumps a fencing epoch, runs its handler, records the outcome under that epoch
-- and only then acks the stream entry. A failed attempt is retried after a jittered backoff
-- until its attempts are spent, then dead-lettered. A reaper takes jobs from silent workers,
-- which bumps the epoch again, so that a late write of the old owner matches no row.
-- Postgres is the truth; the queue may deliver a job any number of times.
--
-- THE FILES.
--   Base            the names, operators and lemmas that all parts use; Go's 64-bit integers
--   Job/Status      internal/job/statemachine.go, job.go: statuses, priorities, Transition
--   Job/Transitions the diagram as a relation, and what the code's table accepts
--   Job/Errors      internal/job/errors.go: error chains, ClassifyError, AttemptError
--   Job/Classify, Job/ErrorText  proofs about these
--   Job/Record      internal/job/job.go: Job, Options, New, Envelope, DecodeEnvelope
--   Job/Admission   what New admits
--   Retry           internal/retry/backoff.go: Delay; proofs in Retry/Bounds
--   Scale           internal/scale/autoscaler.go: Next and Run; proofs in Scale/Policy
--   Store/Row       internal/store/store.go: each UPDATE of the table jobs, as a function on the
--                   one row that it names (`claim_row` is ClaimJob's, and so on); a history of
--                   a row is a list of such statements, run in order
--   Store/Db        the tables, and the methods of Store on them
--   Store/Submit    CreateJob, GetJob, ReapJob, MarkPromoted, RequeueDeadLetter
--   Store/Recorder  internal/store/batch.go: SyncRecorder, and the Batcher's flushOnce and flush
--   Store/Batcher   the Batcher's loop and channel, as moves that interleave
--   Store/Lifecycle, Fence, Budget, Tables, Idempotency, Flush, FlushOrder, Quiet,
--                   Quieting, FlushRetry, BatcherOrder, BatcherBounds  proofs about these
--   Queue/Redis     the commands of Redis, an interface with the laws that are used
--   Queue/Fetch     internal/queue/queue.go: Fetch and Ack; proofs in Queue/FetchBounds
--   Worker/Runner   internal/worker/runner.go: Run and finish; each call of the queue and of the
--                   observer is an effect, listed in order
--   Worker/Routing, Worker/EndToEnd  proofs about the runner, alone and with the store
--   Worker/Pool     internal/worker/pool.go: the fetch loop and the goroutines of the jobs, as
--                   moves that interleave; proofs in Worker/PoolBounds, Draining
--   Store/Queries   the lists that the recovery duties work from
--   Recovery/Duties internal/recovery/recovery.go: the reaper, the sweep and the repairs; calls of
--                   the queue are listed in order
--   Recovery/Entries, Recovery/Loops, Recovery/Sweep  what the reaper may delete, and what a
--                   duty leaves behind
--   Store/Workers   the table of workers; Store/Reports: dead letters and the summary
--   Queue/Depths    Depths, from the counts of its pipeline
--   Queue/Keyspace  the commands of Redis that put entries and flags, with their laws
--   Queue/Delayed   internal/queue/queue.go: Enqueue, ScheduleRetry, DeadLetter, PromoteDue, the
--                   cancel flag and the leader lock; proofs in Queue/Moves,
--                   Promotion, Early
--   Queue/Leader    the election in Run of internal/recovery/recovery.go
--   Api/Http, Submit, Jobs, Auth, Ops, Routes  internal/api/server.go: the handlers, as functions
--                   from the tables and the hub to these, the reply and what is put on the queue
--   Api/Guard       who reaches a handler
--   Api/Handoff, Accepted, Settling, Requeuing  what an answer to a submission, a cancellation and a
--                   requeue promises
--   Control/Hub     internal/control/server.go: sessions by reference, each with its queue
--   Control/Events, Maps, Steps, Sessions  the hub in every history of streams and commands
--   Control/Client  internal/control/client.go: the commands on the worker's pool, the backoff
--   Queue/Reap      ReapAbandoned and ListDLQ
--   Worker/Heartbeat  internal/worker/runner.go: heartbeat, on the tables
--   Recovery/Cadence  which duties Run performs at a tick, and sweepWorkers
--   Handler         internal/handler/handler.go: the registry; Api/Runnable: accepted jobs have a
--                   handler
--   Config/Env, Load  internal/config/config.go: the variables, Load; Config/Passed, Checked: what
--                   a loaded configuration satisfies
--   Worker/Assembly internal/worker/worker.go: New
--   Worker/Shutdown internal/worker/worker.go: Run and the heartbeat loop; every goroutine of the
--                   worker is a source of moves, the signal and the timers too
--   Worker/Stopping, Phases, Keeping, ShutdownEnd, ShutdownRecords, ShutdownStuck,
--                   ShutdownBound  proofs about these
--   Store/Migrate   internal/store/migrate.go: Migrate; proofs in Store/Migrated
--   Article/Text    internal/handlers/articleanalysis/analyzer.go: paragraphs and sentences
--   Article/Words   tokens and syllables; Article/Language: the guess of the language
--   Article/Ranking pagerank; Article/Graph, Keywords: the keywords; Article/Summary: the summary
--   Article/Pieces, Tokens, Sentences, Paragraphs, Picks, Votes, Places, Excerpt, Answers  proofs
--                   about these
--   Article/Handle  Analyze, and internal/handlers/articleanalysis/handler.go
--   Bench           internal/handlers/bench/bench.go: the handlers of the benchmark
--   Callback        internal/handlers/httpcallback/httpcallback.go: Handle; proofs in
--                   Callback/Routing
--   *Samples        concrete runs, one for each theorem with hypotheses
--
-- HOW IT IS MODELLED. A status or a priority is a constructor for each constant of the source,
-- or `other` with its text. The tables are lists of rows; each statement is atomic, which is
-- what Postgres promises for one UPDATE of one row, so concurrent processes are an arbitrary
-- order of statements. now() is an argument of each statement, a number of ticks, and an
-- interval a number of the same ticks. A call of Postgres has a `Fate`: it is served, it is
-- unreachable, or it takes effect and its answer is lost. Attempts, epochs and counters are
-- natural numbers: an epoch grows by one with each change of owner, far from 2 ^ 63. Durations
-- in the backoff, and MaxAttempts of a submission, are 64-bit patterns with the wrap-around
-- and the signed comparison of Go. The random draw of the backoff and its float product are
-- one function, `scale`; GrowAt is a ratio of numbers. Payloads, results and error texts are
-- bytes; that jsonb normalizes the bytes of a JSON value is not modelled, and NULL and '' in
-- job_attempts are one value, as they are to ListAttempts. A LIMIT with no ORDER BY takes the
-- first rows. The text of a leaf error, json.Valid, the JSON codec of envelopes, the UUID,
-- SHA-256 and the handler are arguments. Between the first call of Postgres in a handler of the API and
-- its next one, others may change the tables: `meanwhile` is what they did.
--
-- FUEL. `decimal` writes a number with at most the number of digits that it is given, and the
-- error text gives it 20, enough for every number below 10 ^ 20 and so for every length in
-- Go. The splitters of paragraphs and of sentences have one unit for each code point, and each of
-- their rounds takes at least one. All other recursion is structural: the loop of the backoff runs
-- on the rounds left.
--
-- NOT MODELLED. The heartbeat of an entry in Redis, the percentiles of the summary, the mux and the
-- messages of the API, and ParseDuration; the metrics and the commands, which are wiring or I/O. The
-- numbers of the text analysis are floating-point: their operations are arguments, so nothing is
-- said of a score. The order in which Go ranges over a map is an argument too.
pub mod Api
pub mod Control
pub mod Config
pub mod Callback
pub mod Article
pub mod Bench
pub mod Base
pub mod Job
pub mod Handler
pub mod Queue
pub mod Recovery
pub mod Retry
pub mod Scale
pub mod Store
pub mod Worker
