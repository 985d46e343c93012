-- ===== src/Lib.antt =====
-- The golden-path control plane: a registry of services, their readiness evaluations, and the
-- promotion of deployment candidates. Paths are those of the repository.
--
-- The parts. `Domain` has the types of internal/domain/models.go and their `Validate` methods.
-- `Platformchecks` is `Evaluate` of internal/platformchecks/evaluator.go, which scores a service
-- by ten checks. `Errors` has the errors that the program tells apart: internal/app/errors.go
-- and the errors of internal/postgres/postgres.go. `Postgres` is the store, internal/postgres:
-- each SQL statement is a function on the tables of internal/migrations/sql/0001_init.sql with
-- their constraints (`insert_service`, `claim`, `update_candidate`), and each method of `Store`
-- runs its statements (`CreateService` is `create_service`). `ControlPlane` is
-- internal/app/controlplane.go: `RegisterService` is `register_service`, `UpdateService` is
-- `update_registered_service`, `QueueServiceEvaluation` is `queue_service_evaluation`,
-- `CreateDeploymentCandidate` is `submit_candidate`, `EvaluateDeploymentCandidate` is
-- `evaluate_deployment_candidate`, and `ProcessServiceEvaluationJob` is
-- `process_service_evaluation_job`; `ControlPlane.Entities` has the values that they store.
-- `Config` is internal/config/config.go: `Load` is `load`, its checks are in `Config.Checks`,
-- and `Redacted` is `redacted`. `Auth` is internal/auth: `ParseBearerToken` is
-- `parse_bearer_token`, `IssueHMACToken` is `issue_hmac_token`, and the two validators are
-- `validate_hmac` and `validate_oidc`. `Httpx` is internal/httpx, and `Api` is
-- internal/api/server.go: `serve` takes a request through the middlewares and `route` to the
-- handler of its endpoint, `handle`, which calls `ControlPlane`; `writeError` is `write_error`.
-- `Worker` is internal/jobs/worker.go: `runOnce` is `run_once`, and the loop of `Run` is `run`,
-- on a list of what its selects meet. `System` puts the requests of clients and the rounds of
-- workers one after another; its children have the invariants of the services, of the job queue,
-- of the decisions, of the gate of promotion and of the audit trail over all such runs.
--
-- `Migrations` is internal/migrations/migrations.go: `Apply` is `apply` and `EnsureCompatible`
-- is `ensure_compatible`, over a connection (`Migrations.Connection`) whose exchanges may fail.
-- What a script does to the schema is a parameter, and scripts are taken to leave
-- schema_migrations alone. `Devoidc` is internal/devoidc/issuer.go: `New` is `new_issuer`, and
-- its handlers are `token`, `discovery`, `keys` and `report_health`; `Handler` is `handler`.
--
-- `Runtime` is the start and the end of a process, internal/app/runtime.go: `Bootstrap` is
-- `bootstrap` and `Close` is `close`, over the resources of `Runtime.Process`.
-- `Runtime.Observability` is internal/observability/observability.go, and `Runtime.Pool` is
-- `NewPool` of internal/postgres/postgres.go. `Cli` is cmd/cli/main.go: `main` takes the
-- arguments to the command, `do_request` is `doRequest`, and `issue_oidc_token` is
-- `issueOIDCToken`. Both stand on `Stateful`, a monad of calls that change a state and may fail
-- with a text. `System.Loop` and `System.Refusals` are about the loop of a worker and the
-- refused requests as parts of the whole, and `System.Audited` about the event that each request
-- leaves in the trail; `System.Gate.Verdicts` is about what an evaluation makes of the evidence, and
-- `System.Jobs.Idempotency` about the key that a client gives a job.
--
-- `Runtime.Migrate` is cmd/migrate/main.go, whose `main` is `migrate`, `Runtime.Serving` is
-- cmd/api/main.go, where what `ListenAndServe` returns is a parameter, and `Devoidc.Environment`
-- is `loadConfig` of cmd/devoidc/main.go. `Httpx.Recorder` has the recorder of statuses and the
-- middleware of the log and of the metrics, which `Api.Observed` puts around the routes as
-- `NewHandler` does.
--
-- How calls are modelled. `Effects` has the monad `App`: a call takes the world, that is the
-- database and how many identifiers, times and exchanges have been used, and returns a result or
-- an error with the world it leaves. `Env` holds what the repository does not: the clocks, the
-- generator of identifiers, the two parsers of the standard library, the texts of errors, the
-- rows that other sessions hold locked, what other sessions commit before each exchange with the
-- database, and for each exchange whether it is answered, never arrives, or is carried out with
-- its answer lost. A transaction is undone if its body fails or its COMMIT does not arrive.
-- Inside a transaction no other session is seen. `Effects.Rules` and `Effects.Triple` have the
-- rules by which invariants and postconditions follow from those of the single statements.
--
-- Conventions. An identifier is a number, a time a number of microseconds, a `float64` its IEEE
-- 754 bits, a missing pointer an `Option`. The queue's rows come back in the table's order,
-- since SQL fixes none; of snapshots that are equally late the first stored one counts. No fuel
-- is used: the loops run over lists.
--
-- In `Config`, `Auth` and `Api`, a Go error is its text (`Fallible`). `Platform` holds the
-- environment and the functions of Go that read numbers, durations and URLs and change the case
-- of letters; `Jwt` and `Oidc` hold the libraries for tokens, and `Auth.Libraries` says what of
-- golang-jwt's documentation is relied on. A handler gets what `encoding/json` made of the body,
-- what chi matched, and the text of each parameter and header that it reads.
--
-- Not modelled: the matching of routes by chi, panics and their recovery, durations in the log
-- and in the metrics, the log and the metrics of rounds, signals, the entry points cmd/worker
-- and cmd/devoidc, which wire the parts together, and the JSON encoding of payloads, details and
-- responses.
mod Prelude
mod Examples
pub mod Domain
pub mod Platformchecks
pub mod Errors
pub mod Fallible
pub mod Stateful
pub mod Config
pub mod Auth
pub mod Effects
pub mod Postgres
pub mod ControlPlane
pub mod Worker
pub mod Httpx
pub mod Api
pub mod Migrations
pub mod Devoidc
pub mod Cli
pub mod Runtime
pub mod System
