-- ===== src/Lib.antt =====
-- A verification library for the service runtime, the Go packages that the services share.
--
-- Parts of the program and the modules that model them:
--
-- * resilience/breaker.go (Resilience.Breaker): the circuit breaker. `Breaker` is its state, `before`
--   and `after` are the two critical sections of `Do`, `state_locked` the promotion to half-open,
--   `current_state` and `reset` are `State` and `Reset`, `do_value` is `DoValue`. The clock's reading
--   is an argument of each. Goroutines that share a breaker are the steps of
--   Resilience.Breaker.Concurrent; Stale has the probe that outlives its half-open period.
-- * resilience/retry.go (Resilience.Retry): `retry` is `Retry`, with `retry_from` its loop, structural
--   in the attempts that are left, so that no fuel is needed; `backoff_delay` after `max_jitter` is
--   `backoffDelay`; `retry_value` is `RetryValue`. The function, the timer and the random source
--   change a world that is passed along.
-- * startup/retry.go (Startup.Retry): `do_op` is `Do`, `value` is `Value`.
-- * startup/lifecycle.go (Startup.Lifecycle): `on_shutdown` and `shutdown`; a hook may register hooks.
-- * featureflags/file_store.go (FeatureFlags): `reload`, `refresh_if_needed` with its step `claim`,
--   `lookup`, and `enabled_for` with the FNV-1a bucket of `rollout_bucket` modulo 2^32. The generated
--   protobuf type and protojson are the record `Proto` of operations and laws.
-- * ratelimit/ (RateLimit): Bucket is the token bucket, Limiter the table of buckets with its cleanup
--   and the choice between Redis and the table, Redis the decoding of the script's reply, with the
--   bounds of int64 in `parse_int`, and Middleware the handler. The Lua script itself runs in Redis.
-- * httpkit/response.go (HttpKit): `CaptureResponseWriter` over net/http's writer, which leaves out the
--   body where the status or a HEAD request allows none, on a connection that may fail.
-- * idempotency/idempotency.go (Idempotency): Store is `PostgresStore` over the list of the table's
--   rows, Middleware is `MiddlewareWithOptions` in two steps, `enter` up to the call of the handler and
--   `leave` after it. A transaction is atomic; that the primary key makes an insert fail is one of the
--   faults, which are arguments. The captured response comes from HttpKit. Events are the steps of any
--   requests on one store, in any order.
-- * authmw/ (AuthMw): Auth is `WithAuth` and what it calls, with the identity service as two functions
--   that may be missing; Principal is principal.go, over a map's entries in the order of their visit.
-- * rterrors/ (RtErrors): errors as the chains of their `Unwrap`, their codes and messages, and what
--   is written to a client of HTTP or Connect. `connect.CodeOf` is a parameter.
-- * identityclient/client.go (IdentityClient): LruCache is `lruCache` over the list of its entries in
--   order of use; Client has `New` and what it decides of TLS; Introspect is `IntrospectProto` on every
--   outcome of the request, with `fallback` the cached result for an outage; Results is `Introspect`;
--   Scopes is `cacheScopesKey`; ServiceTokens issues and resolves service tokens. History has the
--   calls of a client as an explicit sequence, with what the identity service answered in each.
-- * migrate/migrate.go (Migrate): the options, their validation and the environment; Migrate.Run is
--   one run over a record `Migrator` of the four calls of golang-migrate, which change any world.
-- * changejournal/changejournal.go (ChangeJournal): Defs has the statements, ChangeJournal the rows of
--   a mutation and `write_mutation_with_options` over a record `Dbtx`, Protos the events message.
-- * natsbus/reliable.go (NatsBus): DeadLetters is the directory of dead letters, as the list of its
--   entries, and Reliable is `Publish` of an encoded change and `replayOnce`, over the breaker and the
--   retry of Resilience. The broker is a function of the message.
-- * natsbus/natsbus.go, consumer.go and propagation.go (NatsBus): Envelope is the event with headers as
--   an association list, Codec and Decode its three wire formats, Publisher the messages of changes,
--   Connect the setup of a publisher, Consumer that of a subscription and its end, both over the
--   record `NatsClient` of NatsBus.Client, whose laws say which calls open and close connections. JSON, protobuf and RFC 3339 are the record
--   `Codecs`, whose laws are the record `Lawful` of NatsBus.RoundTrip; NatsBus.Sample has codecs that
--   satisfy them. Propagation takes a span out of a received message, with OpenTelemetry's propagators
--   as the record `Propagators`.
-- * health/health.go (Health): `Checker` with `check`, `cached_check` and the handlers; Shared has the
--   requests and registrations that share one checker.
-- * downstream/downstream.go (Downstream): `call_op` over the breaker of Resilience, with the failure
--   modes and the recorded metrics.
-- * async/async.go (Async): `try_go` and `finish` are the two ends of a task on a `Runner`, and
--   Async.Bounds their interleavings.
--
-- Base has the shared tests, lists, strings as code points, maps as association lists and integers.
-- Floats states the laws of float64 that the code relies on; the natural numbers are an instance, over
-- which tests run. Capture is the closure by which a value leaves a function that returns an error.
--
-- Times and durations are natural numbers of nanoseconds, or the integers where a configuration may
-- be negative; the overflow of int64 after 292 years is not modelled. Panics of functions that the
-- code calls, logging and the registration of metrics are not modelled, nor are agenthook, httpclient
-- and observability, which are input and output, and the opening of connections, which is done by
-- third-party libraries.
mod Base
pub mod Capture
pub mod Floats
pub mod Resilience
pub mod Startup
pub mod FeatureFlags
pub mod RateLimit
pub mod HttpKit
pub mod Idempotency
pub mod AuthMw
pub mod RtErrors
pub mod NatsBus
pub mod IdentityClient
pub mod Migrate
pub mod ChangeJournal
pub mod Health
pub mod Downstream
pub mod Async
