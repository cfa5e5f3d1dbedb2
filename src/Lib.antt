-- ===== src/Lib.antt =====
-- Poolstatis (https://github.com/lim5max/poolstatis) is product analytics for agents: an HTTP and MCP
-- server that takes events in, answers queries over them, and keeps the loop of a product decision, from
-- a measurement contract and a release to its evaluation and the decision. This library models the parts
-- of the server that decide what is admitted, in which order work is done, and which states a record may
-- go through. Paths are those of the repository.
--
-- RateLimiter (src/services/rateLimiter.ts). Every request of an API key first passes `consume`: two token
--   buckets, of the key and of the project, in the lane of the request. Bucket is the arithmetic (`refill`,
--   `retryDelay`), Store one `BucketStore` (`touch`, `insert`, `remove`, `ensureRoom` and the eviction), Consume
--   the call, its options and `size`. The `all` map holds the records, and the queue of a tenant holds ids,
--   since the source shares the objects. Times are whole milliseconds and tokens whole thousandths:
--   src/config.ts admits positive integers as rates, so that a millisecond adds whole thousandths. The
--   arithmetic is exact, where the source adds and divides doubles: their rounding is left out, and a delay
--   that a refusal names may differ from that of the source by a millisecond. A clock that
--   goes back is the `max(0, ...)` of the source.
-- BufferedStore (src/stores/bufferedEventStore.ts). Admitted events wait in a buffer until a batch or a timer
--   sends them to the delegate store. State is the state and what runs up to an `await`, Steps the calls, the
--   timer and the answers of the delegate. The delegate is the environment: an answer is any number of
--   inserted events or an error, at any time. A promise is the number of its caller, and what the promises of
--   `append` and of `appendIdempotent` are settled with are two lists.
-- Contracts (src/services/contracts.ts): the check of a measurement contract against the registry of a project.
-- Releases (src/services/releases.ts, src/services/decisions.ts, src/migrations/018_measurement_contracts_releases.sql):
--   the tables `releases` and `release_revisions`, with their CHECK and keys, under `registerRelease`,
--   `transitionRelease` and `finalizeObservedRelease`. A call is one transaction: it answers with new tables or
--   fails and leaves the old ones. An advisory lock and the row locks put the transactions in an order, so
--   that a run is a list of calls. Registration and observation read the contract that Contracts checks.
--   The snapshot of a revision is the row that it shows; the one that `finalizeObservedRelease` writes is marked
--   by its action, since it is the row as Postgres prints it.
--   `iso` stands for how Postgres and the Date of JavaScript spell a time that was stored; nothing is
--   assumed of it. Sha is `toLowerCase` on the hexadecimal digits that the schema lets through.
-- Decisions (src/services/evaluation.ts, src/services/decisions.ts, src/migrations/019_decision_evidence.sql):
--   the evaluation of a release and the review of what it proposes. Evidence and Verdict compute on the answers
--   of the queries, Tables the rows and `persistEvaluation`, Calls `evaluateRelease` and `reviseDecision` on
--   the tables of Releases too, Queue `listDecisions`. A number of JavaScript is a whole multiple of one unit,
--   so small that every number is one; the rounded quotient of two, the queries of the metrics, the reading of
--   times, the text of a rationale and the SHA-256 are any functions. A call is one step: what other calls
--   do between the reads of an evaluation and its writes is not modelled.
-- Monitor (src/services/releaseMonitor.ts): `runOnce`, which claims the releases that are due, begins an attempt
--   for each, evaluates it and schedules what follows. The evaluation is the function that the monitor is
--   built with, and the hash of a window any function. The passes of one monitor do not overlap.
-- QueryCache (src/services/queryCache.ts): the cache of repeated queries. A load and its promise are a number, in
--   the order of their start; that a load ends is an event, which finds its entry again by that number, as
--   the source compares objects. The id of a project is a UUID.
-- Flags (src/services/flags.ts, src/schemas.ts): the flags of one project and the choice of a variant. A percentage
--   is a number of hundredths, as `Math.round(percentage * 100)` makes it in both files, and the SHA-256 of a
--   salt and a visitor is any function into numbers. The experiments of the project are read only.
-- Actions (src/services/actions.ts): the actions on the decisions of one project. An approval and a retry end in
--   `executeApproved`, which waits for an effect; the calls that wait are a list, and an effect is an event
--   that may come at any time and in any order. The fingerprint of a payload is any function.
-- Metering (src/stores/postgresEventStore.ts, src/services/usageEntitlements.ts, src/services/usageWarnings.ts, the
--   migrations 024, 025 and 041): what accepted events count for. Table has the rows, Insert `insertMetered` and
--   `append`, Batches `appendIdempotent` and `backfill`, Entitlements `configureUsageEntitlement`. The locks put
--   the transactions in an order, so that a call is one step; what an event is inserted with is left out.
--   The warnings are written after COMMIT, and each call has whether that succeeded. A period is the number
--   of its month.
-- Schedules (src/services/timezoneSchedule.ts, src/services/insightFeedWorker.ts): `nextZonedOccurrence` and the call
--   that `seedDue` makes of it. A time is the number of its minute since 1970, the formatter of a zone is any
--   function from minutes to what is shown, and a time of day is the two numbers in its text, if it matches.
-- Common: native numbers, tests, lists, and the JavaScript Map as a list in the order of insertion.
--
-- Every function here is by structural recursion: the loops of the source go over lists, and none needs fuel,
-- but for the search of a schedule, whose rounds are the bound of eight days that the source has.
-- Not modelled: the HTTP and MCP servers and their schemas (input and output), the SQL of the event store
-- and of the query service (the work is Postgres'), statistics on floating-point numbers, the browser SDK,
-- the web application, the command line, and errors of the database other than those of the
-- constraints named above.
pub mod Actions
pub mod BufferedStore
pub mod Common
pub mod Contracts
pub mod Decisions
pub mod Flags
pub mod Monitor
pub mod QueryCache
pub mod RateLimiter
pub mod Releases
pub mod Metering
pub mod Schedules
