-- ===== src/Lib.antt =====
-- A model of the OurDAO backend: the service that tails a Stellar contract's events, folds them into
-- derived tables in PostgreSQL, authenticates members by challenges that they sign, and tells
-- connected clients of changes by server-sent events.
--
-- The poller reads pages of events from the RPC and ingests each in one transaction: the raw event
-- goes to the log, its handler writes the derived tables, and the event is marked as folded. A page
-- that keeps failing in one handler is ingested event by event, with the failure put on record. An
-- operator replays recorded failures one by one, or rebuilds all derived tables from the log.
--
--   Common      equality tests, results, integers, decimal texts, tables under a key
--   Events      src/stellar/events.ts: the catalog of events, decoded values, named fields
--   Derived     src/db/schema.sql: the derived tables (`members`, `loans`, `dao_totals`, ...)
--   Handlers    src/indexer/handlers.ts. Handlers.Require has the field readers (`requireAddr` is
--               `require_addr`), Handlers.Conversions what is converted by `Number` (`due_time`,
--               `active`), Handlers.Statements the statements that handlers share (`notify`,
--               `incrementDailyLoanStats`), Handlers.Members, .Proposals, .Loans and .Treasury the
--               handlers (`loan_appr` is `handle_loan_appr`); `apply_event` is `applyEvent`
--   Store       the database as the indexer sees it: the log, the failures, the cursors
--   Ingest      src/indexer/poller.ts: `ingest_page`, `ingest_event_quarantined`, and in
--               Ingest.Quarantine `ingest_page_with_quarantine` with its states
--   Polling     src/indexer/poller.ts: `fetch_once` with its checks against the RPC's chain and its
--               loop over the pages, `drain`
--   Startup     src/indexer/poller.ts and src/indexer/clear-reorg.ts: the recorded halts, the check
--               of the saved cursors, and `start_indexer`, which is `runIndexer` up to its loop
--   Running     src/indexer/poller.ts: the loop of `runIndexer`, `run_rounds`
--   Recovery    src/indexer/reindex.ts (`reindex_from_event_log`) and src/indexer/replay.ts
--               (`replay_failed_event`)
--   Auth        src/auth.ts. Auth.Nonces is `MemoryNonceStore`, Auth.Postgres `PostgresNonceStore`,
--               Auth.Stores what both promise (`NonceStore`), Auth.Failures `AuthFailureTracker`,
--               Auth.Signatures `verifySignature`, Auth.Requests `authenticateRequest`
--   Stream      src/api/stream.ts. Stream.Client is `StreamClient` (`sendMessage` is `send_message`),
--               with what can happen to a connection in Stream.Client.Signals; Stream.Hub has
--               `dispatchStreamNotification`, the trackers and the caps of `registerStreamEndpoint`
--   Routes      src/api/routes/index.ts: the readers of a query's texts (`parseLimit`, `eventCursor`,
--               `ledgerBound`) and the statement that GET /events builds, `events_statement`: its
--               conditions, the numbers of their placeholders and the values bound to them
--   Loans       src/api/loan-derived.ts, over integers: `withLoanDerived`
--   Examples    concrete events and databases
--
-- A handler is a function from the derived tables to a result: the new tables, or the error that
-- it throws. A transaction is a function whose error leaves the database as it was. A table is a
-- list of rows under their keys, in the order of insertion. Amounts are natural numbers below 10 ^
-- 40 and counts are checked against int4 where the database checks them. The order in which a
-- rebuild reads the log takes the database's order of texts as a parameter. What the RPC answers,
-- the clock, the signal to stop and the lock are parameters of a poll, page by page. All recursion
-- is structural: `drain` recurses on the pages that `maxDrainPages` leaves, which is where the
-- source's loop stops at the latest, and `attempts` counts the polls of one page.
--
-- The Stellar SDK is a record of functions that the definitions of Auth take.
--
-- A socket of the event stream is a function from a frame to the answer of `write`, with a state of
-- its own; timers are signals that fire if they are armed.
--
-- The loop of `runIndexer` is given its rounds, with the instants and what each poll meets.
--
-- Not modelled: the other routes of the API, the reconnection of the stream's listener, caches,
-- tracing, metrics and logging, and failures of the database other than a value that a column refuses
-- and the two inserts whose failure the code swallows: of a quarantined event, and of a halt.
pub mod Common
pub mod Events
pub mod Derived
pub mod Handlers
pub mod Store
pub mod Ingest
pub mod Polling
pub mod Recovery
pub mod Startup
pub mod Running
pub mod Auth
pub mod Stream
pub mod Examples
pub mod Loans
pub mod Routes
