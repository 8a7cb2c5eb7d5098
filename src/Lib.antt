-- ===== src/Lib.antt =====
-- DDAG, a gateway that publishes SQL statements as HTTP endpoints: a verification library for the
-- Go code of the repository.
--
-- A request enters the gateway, which finds its route, checks the caller and the limits, and sends
-- the SQL template with its parameters to the connector of the source database. The connector asks
-- its circuit breaker and its admission controller, binds the parameters and runs the query.
--
-- Base: what the other modules share.
-- Models (internal/models): the records that the gateway reads, and the operation of a method.
-- Errors (internal/httpx/errors.go): the error codes and their statuses.
-- Router (internal/gateway/router.go): `build` and `match_route` are Build and Match on a list.
-- Policy (internal/policy): Scope is HasScope, Addresses is IPAllowed over an address parser, and
--   RateLimit is the Lua script and Allow over a map of counters.
-- Gateway (internal/gatewaysvc/service.go, metadata.go): `serve` is the handler on a State (Env) of the
--   limiter's counters, the cache and the queries sent; `fetch` its cache and connector steps,
--   `resolve_payload` and `load` the functions of these names. Limits has effectiveLimit and
--   pagination on 64-bit integers, Metadata the snapshot's lookups; Building has `build_query`, the step
--   of `serve` that resolves the parameters and builds the query.
-- Params (internal/gateway/params.go): `resolve_params` is ResolveParams.
-- QueryBuilder (internal/gateway/querybuilder.go): `validate`, `build` and `build_dynamic_query` are the
--   methods of these names; Names has the regular expressions, as scans, and Where the filters.
-- Publish (internal/gateway/validate.go): `validate_for_publish` and `validate_for_execution`, on the
--   fuel of the SQL scanners; Statements has the expression for SQL that writes.
-- PolicyEngine (internal/policyengine/service.go): `handle_check` is handleCheck, on the
--   lookups of its store and, for the rest, the gateway's environment.
-- Tokens (internal/authservice/service.go, internal/store/clients.go): `handle_token`, `refresh` and
--   `handle_revoke` on the table of refresh tokens; `step` is one event of a history.
-- InternalAuth (internal/internalauth/auth.go): `verify_headers_with_replay_store` on the nonces, with
--   the clocks of the service and of Redis apart.
-- Dispatch (internal/gateway/dispatcher.go, connectorclient.go, circuitstate.go): `dispatch` is an event
--   of the dispatcher, a call up to its HTTP request (`dual_ask`, `ask`) or an answer (`received`), on
--   the circuits that the HTTP client remembers.
-- Pools (internal/connectorpool/registry.go): `first_look`, `build` and `second_look` are the parts of
--   Acquire that other goroutines come between; `Step` interleaves them.
-- Lifecycle (internal/adminsvc/api_lifecycle.go, handlers_apis.go, internal/store/catalog.go): `handle`
--   is a request of the dashboard on the row of an API, and Races.Step lets the reads and the writes
--   of any number of requests interleave. That the driver may refuse a statement is an argument.
-- Connector (internal/connector/service.go): `handle_query` is handleQuery on a map of breakers.
-- Circuit (internal/circuit/breaker.go): `allow` and `report` are the methods on a Breaker record,
--   with the time as an argument; `run` folds a history of calls.
-- Admission (internal/connector/admission.go): `attempt`, `release` and `dequeue` are the critical
--   sections of Acquire, release and dequeue; `Step` interleaves any number of callers. A channel is
--   the number of times that it was closed.
-- Sql (internal/connectors/bind.go): `bind_dialect`, `extract_param_names` and `strip_dialect` are
--   the three scanners, each a loop on fuel with one unit for each turn; `bind` is Bind, which the
--   connectors call and which knows no dialect. `none` is a loop that still runs. The length
--   of the template is enough fuel unless it stalls (Sql.Bind.Pieces), and no fuel is enough when it
--   does (Sql.Stall). Pagination (pagination.go) has `apply_pagination`, the page that the connectors
--   append.
--
-- Texts are lists of code points, and case folding and trimming are those of ASCII. Integers stand
-- for Go's int where it does not overflow (Gateway.Limits writes the wrap-around of an offset);
-- times are numbers from a fixed origin, in the unit that each file names, or else milliseconds. A
-- parameter value is of any type, since the code only passes it on.
-- Parameters of the model: the token library, password hashing, HMAC, address parsing, JSON,
-- regular expressions of parameters, the hash of a cache key, the connector's answer, the statements
-- that the database driver refuses, and, for the pipeline of the gateway, the builder of the query
-- from a request, whatever it builds.
-- Not modelled: network and database input and output, cryptography, configuration, metrics, the
-- other admin handlers, the dashboard and generated code.
pub mod Base
pub mod Models
pub mod Errors
pub mod Router
pub mod Policy
pub mod Gateway
pub mod Lifecycle
pub mod Connector
pub mod Circuit
pub mod Admission
pub mod Sql
pub mod Params
pub mod Publish
pub mod QueryBuilder
pub mod PolicyEngine
pub mod InternalAuth
pub mod Pools
pub mod Tokens
pub mod Dispatch
