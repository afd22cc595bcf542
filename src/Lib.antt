-- ===== src/Lib.antt =====
-- prodkit-storage (src/prodkit_storage) is a Python library of storage building blocks around
-- SQLAlchemy with PostgreSQL and around Redis. This library models its logic and proves it correct.
--
-- The parts, and the file that models each:
--
--   Common.antt        what the parts share: tests, lists, the exceptions (exceptions.py) as values of
--                      `Error`, results, Python's signed integers, strings and JSON values.
--   Outbox.antt        the transactional outbox. Outbox/Defs is models/outbox.py and what outbox.py does
--                      to one row (mark_outbox_failed, mark_outbox_published, the WHERE clauses
--                      `claimable` and `owns`); Outbox/Session is the interface of the database session;
--                      Outbox/Ops is enqueue_outbox_event, claim_outbox_events,
--                      complete_outbox_event and fail_outbox_event over the table,
--                      and Outbox/Metrics get_outbox_metrics. Outbox/Rows is the
--                      abstract view: the life of one row as a step relation, which the operations
--                      refine (Outbox/Refines, Outbox/Failing).
--   Sorting.antt       database/sorting.py: sort terms, ORDER BY, the keyset boundary and the registry
--                      that resolves public names.
--   Pagination.antt    database/pagination.py: Values is _serialize and _coerce, Cursor is
--                      CursorCodec, Pages is paginate_sync over a sort plan, Strict and Walk follow
--                      the cursors, Offset is paginate_offset_sync. A page's query uses the boundary
--                      of Sorting, and its cursor the codec.
--   Redis.antt         the interface of a Redis server for text values, a record of commands and laws;
--                      Redis/Cells is a server that meets it.
--   Locks.antt         redis/locks.py: RedisLock and its scripts, over that interface.
--   Idempotency.antt   redis/idempotency.py: the store's methods and scripts, over that interface.
--   RateLimit.antt     redis/rate_limit.py: the token bucket script and `check`, over an interface of a
--                      server with hashes and a clock.
--   Transactions.antt  the code that runs work in database transactions: Errors is database/errors.py,
--                      Retry is database/transactions.py, Batches is database/backfill.py (Backfill
--                      proves how its loop ends), UnitOfWork is
--                      database/uow.py.
--   Context.antt       context.py, and Context/Tenant is the listener of database/tenant.py that applies the
--                      context to a transaction.
--   Audit.antt         security/audit.py (Audit/Policy), audit.py and models/audit.py (Audit/Record): the
--                      policies, the sanitizing of payloads that may be cyclic, and the stored event.
--   Migrations.antt    database/migration_safety.py: Migrations/Syntax is what the linter reads of a
--                      parsed module, Scanner is _UpgradeScanner, Report is the report and its checks.
--   Schema.antt        database/schema_compatibility.py.
--   Repository.antt    database/repository.py: Statements, Reads and Writes are the methods of
--                      SyncRepository over the interface of a session; Repository/Async those of AsyncRepository;
--                      Repository/Rows states what SQLAlchemy documents of the rows of a session
--                      without autoflush.
--   Filtering.antt     database/filtering.py: the registry of filters and the criteria.
--   Rls.antt           database/rls_verification.py: the report on row-level security.
--   Security.antt      security/secrets.py (Security/Secrets) and security/roles.py (Security/Roles).
--   Cache.antt         redis/keys.py (Cache/Keys) and redis/cache.py (Cache/Defs), over the interface of a
--                      server with texts and sets that expire (Cache/Keyspace).
--
-- The async twin of an operation runs the same statements in the same order on one session or client,
-- so that one definition models both. Stateful code takes the state of the table or the server and
-- returns the new one; an exception is a value of `Error`.
--
-- Bounds and fuel. `acquire` (Locks/Defs) takes fuel for the passes of its loop: one more than the
-- waiting time has milliseconds is enough, since each pass sleeps for at least one. `walk`
-- (Pagination/Pages) takes fuel for the pages: one more than there are rows is enough. The loop of
-- a backfill without a limit takes fuel for its batches. `get_sqlstate` visits 16 exceptions at most.
-- Times are microseconds in the outbox and milliseconds in Redis. Arguments that may be negative are
-- read as `ℤ` by the guards, and as `ℕ` behind them.
--
-- Taken as parameters, with what the code relies on as laws: the session's statements, the COMMIT
-- and ROLLBACK, `unique()` of a result, the Redis commands, HMAC, JSON and base64, Python's
-- conversions of UUIDs, dates, decimals and enumerations, the fingerprints, random tokens, and the clocks.
--
-- Not modelled: floats and their rounding (token counts are in units of which the refill of one
-- millisecond is a whole number, so that no result is about the float `retry_after_ms`), SQL
-- other than the conditions above, the legacy two-column keyset query, times as values of a
-- cursor, the repository's methods that only pass their arguments on, Alembic's operations, the command line, configuration and the
-- framework integrations. Strings are cased by the letters of ASCII.
pub mod Common
pub mod Migrations
pub mod Schema
pub mod Security
pub mod Cache
pub mod Filtering
pub mod Rls
pub mod Repository
pub mod Context
pub mod Audit
pub mod Outbox
pub mod Sorting
pub mod Pagination
pub mod Redis
pub mod Locks
pub mod Idempotency
pub mod RateLimit
pub mod Transactions
