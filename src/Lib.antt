-- ===== src/Lib.antt =====
-- Verification of the logic of the Arena Rank backend, backend/arena: tournaments, the rating engine,
-- the rules on the integrity of a match, the transaction that rates a match, the life of a season, the
-- layer that protects the calls of the Riot API, and the locks of the rating transaction.
--
-- Tournament models backend/arena/tournaments. Tournament/Scoring.antt is scoring.py
-- (compute_standings); Tournament/Provision.antt is provision.py; Tournament/Rows.antt has the rows of
-- db/models.py, the errors of the service, and its transactions, which write nothing when their body
-- raises; Tournament/Onboarding.antt has create_team, join_team and validate_access of service.py,
-- Tournament/Matches.antt set_match_link and submit_result, and Tournament/Create.antt
-- create_tournament. An event is a tournament with its teams and matches, and an operation named f_in
-- is the body of the transaction of f. The service calls the scoring engine on the locked rows.
--
-- Rating models backend/arena/rating: Params (params.py), Caps (caps.py), Modifiers (modifiers.py),
-- Engine (types.py and the steps of engine.py), Rate (rate) and Explain (explain.py, the ledger of a
-- result: Entries, then Tiers for the cap layer). Floats.antt is the interface to floating-point
-- numbers that it computes with; the only laws assumed of them are those of a total order. The update
-- of the openskill package is an argument.
--
-- Integrity models backend/arena/integrity: Types (types.py), Params (params.py), Fingerprint
-- (fingerprint.py, its two stores as sorted sets with an expiry), Evaluators, Premade and Signals
-- (evaluators.py), and Service (service.py). It judges a match before it is rated: the verdicts carry
-- the penalty factors and the eligibility that the rating engine takes with each participant.
--
-- Riot models backend/arena/riot: Breaker (circuit_breaker.py), Retry (retry.py), RateLimit
-- (rate_limit.py, with its two Lua scripts), LimitHeaders (limit_headers.py, its parser), Coalesce
-- (coalesce.py, the lease between the workers) and Cache (cache.py, two tiers). Locks.antt is
-- services/locks.py. Redis is a map that the scripts and commands change one atomic step at a time, and
-- the other clients are an argument.
--
-- Season models backend/arena/services/season_service.py: Rows (the tables it uses), Lifecycle
-- (advance_status), Close (close_season) and Reset (soft_reset, which calls the rating engine's).
-- Processing models backend/arena/services/rating_service.py: Rows (services/protocols.py and the
-- tables), Inputs (the reads), Persist (the loop over the results), Commit (the writes), Match
-- (process_match, which runs inside the locks and calls the rating engine), Champions (the running
-- figures of a champion) and StateBefore (the restore points). Both services work on the same rating
-- rows. A transaction that raises leaves the database as it was. The order of a query's rows is an
-- argument where the code depends on it.
--
-- Pipeline models backend/arena/services/match_pipeline.py around it: Gate (process_match and
-- process_parsed, with the filters, the staging and the registration of players) and Watermark (the
-- detection of matches that arrive late, with services/ingest_state.py); Pipeline/Replay.antt is
-- backend/arena/ingest/replay.py. Both call Processing.
--
-- Prelude passes on the names of the library, and has lists over the native numbers, Python's
-- integers, dicts as association lists, the stable sort, and results of calls that may raise.
--
-- The fuel is that of the acquire loop of the locks and that of the follower in Coalesce, counted in
-- rounds. Both add up the time they have waited in floats; the sum is an argument, and if it reaches the
-- limit after some number of rounds, one round more is shown to be enough. The retry loop runs
-- max_retries + 1 times as in the code. Delays and windows are counted in units in which they are whole
-- numbers.
--
-- Where workers act at the same time, a command or a script of Redis is one step, as is a load. In Locks
-- and Coalesce the others come between any two steps, and in Pipeline/Watermark a call reads the mark
-- before and writes it after what other calls write. Elsewhere an operation is one step: a transaction
-- of the database, a pipeline that is a transaction, a payload of Gate, a call of the cache.
--
-- The floats of the model are those other than NaN, and its division always has a value. The code
-- divides by the streak threshold, the scale factor and two divisors of the cap layer, whose
-- validation lets 0 through: it then raises ZeroDivisionError, and for such parameters the theorems on
-- the rating engine say nothing of it.
--
-- Not modelled: the Redis store of limit_headers.py; the futures within a process of coalesce.py; the
-- outer wait loop of acquire and the errors of Redis, which the code passes over; the columns and
-- projections that only label a page; the generated ids and column defaults of the database; the
-- parser of a payload, the premade evaluator of the pipeline, its cache of the active season and its
-- queue of backfills; and the parts of the backend outside these modules: HTTP interface, workers,
-- ingestion, statistics.
pub mod Prelude
pub mod Floats
pub mod Rating
pub mod Tournament
pub mod Riot
pub mod Locks
pub mod Integrity
pub mod Season
pub mod Processing
pub mod Pipeline
