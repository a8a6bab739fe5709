-- ===== src/Lib.antt =====
-- The PR reviewer service: teams, their users, pull requests and the reviewers that are assigned to
-- them, behind an HTTP interface, in Go over PostgreSQL.
--
-- A request passes the middleware for panics, for the log and for metrics, the error wrapper and a
-- handler (internal/http), then a use case of `Service` (internal/service), which checks the texts,
-- reads through the repository and writes through it; each write of the repository
-- (internal/repository) is one transaction of the database whose tables stand in
-- migrations/001_init.up.sql.
--
--   * Domain: internal/domain/models.go and errors.go, with the source's fields.
--   * Validation: internal/service/validation.go. A text is its code points; `len` counts the bytes
--     of their UTF-8 form.
--   * Database/Schema, Statements, Queries: the five tables as lists of rows, and each SQL statement
--     of storage.go and tx_storage.go as a function on them, with the primary and foreign keys that
--     the migration declares. A row that is inserted stands first. The serial id of an event and the
--     cascades are left out: nothing reads the one, and no team or pull request is ever deleted.
--   * Repository/Monad: programs that call the driver. The state is the database, the number of
--     calls so far, the position in the stream of random numbers and the business counters
--     (internal/metrics/business.go). A result is a value, an error value of Go, or a panic.
--   * Repository/Transaction: `WithTx`. Repository/Teams, Users, PullRequests, Listings: the methods
--     of `Storage`. Repository/Tx: the methods of `txStorage`, and `WithTransaction`.
--     Repository/Interface: the interfaces of interfaces.go as records, with the two that fill them.
--   * Repository/Triple: the rules by which the other modules reason on these programs.
--   * Picker: `pickRandomIDs` and `uniqueIDs`, with internal/infrastructure/randomizer and the
--     Fisher-Yates loop of math/rand.
--   * Service/Basic, Assignment, Deactivation: the use cases of internal/service/service.go.
--   * Http/Response, Mapper, Handlers, Router: the error wrapper, the panic middleware, the mapping
--     of teams, the handlers of internal/http/handler and the routes. Http/Keeping: the interface
--     between the use cases and what the routes keep of the tables.
--   * Http/Middleware: the chain of internal/http/middleware around the routes, with the samples of
--     internal/metrics/technical.go and of metrics.go, and the lines that the chain itself writes to
--     the log where the level of App/Logger takes them, as lists that grow.
--   * Logging: internal/logging, the values in a context, the errors that carry them, and the
--     attributes that `Handle` adds to a record of the log.
--   * Config: internal/config/config.go, and the defaults of `service.New`.
--   * App/Connect, Start, Logger: internal/app/app.go and cmd/run/main.go.
--   * Load: load/cli/main.go, the load generator.
--   * Board: an abstract description of the whole service, which knows no tables: who has written
--     each pull request and whether it is merged, who reviews it, and the steps that may change
--     this. Integrity/Invariant says which board the tables show.
--   * Stability: predicates on the tables that no single statement breaks, over the repository, the
--     service, the routes and `WithTransaction`; Stability/Keys and Stability/History are two of them:
--     the keys that the migration declares, and what is never taken back.
--   * Equivalence: `Storage` and `txStorage` side by side, operation by operation.
--   * Integrity: the invariant of the tables, over every operation up to whole lists of requests.
--     Effects: single operations, with what they change and what errors leave; Effects/Returns: the
--     same where no call to the database fails, and Effects/Returns/Requests over HTTP after other
--     requests.
--
-- What the program does not fix is the record `Env`, an argument of every program: which call to
-- the driver fails and how, whether a COMMIT that reported an error was carried out, the clock, the
-- random numbers, the collation, the order in which an unordered query meets the rows and in which
-- Go ranges over a map. The orders keep the multiset of what they order; nothing else is assumed.
-- The transaction manager of `MassDeactivate` is a third-party package and so an argument, with its
-- documented behaviour as the hypothesis `Manages`: it fails before the closure runs, or runs it
-- once and answers with its result or an error. The storage does not take the manager's transaction
-- from the context, so what the closure writes is not undone by the manager.
--
-- All programs are total: the loops of the source run over lists, and no fuel is needed, but for the
-- loop of the load generator's report, which reads a file to its end: it has a round for each byte of
-- the file and one more, which is enough where a result takes at least a byte. Numbers are counts
-- and times, which the source does not bring near the limits of its integers. Requests are served
-- one after the other: concurrent transactions are not modelled, and neither are deadlines, which
-- show as failures of calls. A statement that is its own transaction, and whose call fails, is taken
-- not to have been carried out.
--
-- Parameters stand for what is not in this repository: reading files, decoding YAML and parsing the
-- environment in Config; the migrations, the pool, the server, the signals and the files in App;
-- vegeta, its encoder and its decoder with their states, and the file system in Load; the ids of
-- requests and the texts of statuses and durations in Http/Middleware. In Http/Middleware the
-- pattern that chi has matched is part of the state: it is empty until the request is routed, as
-- chi documents.
--
-- Not modelled: the Swagger pages and the page for Prometheus, which are static or a library's;
-- requests that match no route; the lines that WriteDomainError, the route /health, the repository
-- and App write to the log, which stand there between those of Http/Middleware; the middleware
-- RequestID and RealIP of chi; the JSON form of a body, which is left to the encoder: a body is the
-- value that is decoded or encoded.
pub mod Prelude
pub mod Domain
pub mod Validation
pub mod Database
pub mod Repository
pub mod Board
pub mod Picker
pub mod Service
pub mod Integrity
pub mod Http
pub mod Stability
pub mod Equivalence
pub mod Effects
pub mod Config
pub mod App
pub mod Load
pub mod Logging
mod Tests
