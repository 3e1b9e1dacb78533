-- ===== src/Lib.antt =====
-- Smart Eyes cloud connector (cloud-connector/): the service between edge devices, external hazard
-- providers and operators. It receives telemetry and hazard events, stores them once, fans them out
-- to live subscribers, and carries commands to the devices.
--
-- The parts and how they interact. An edge device calls the HTTP API (internal/ingest/ingest.go); a
-- provider calls the webhook (internal/webhook/webhook.go), which authenticates and parses with
-- internal/provider/betagrid/betagrid.go. Both end in the event pipeline
-- (internal/events/events.go), which resolves the device, validates, stores and publishes. Commands
-- go through internal/commands/commands.go, which stores them, pushes them to a provider's sender
-- or lets the device poll for them, and expires them. All state that lasts is in PostgreSQL behind
-- internal/storage/storage.go. Calls of providers go through the retry loop of
-- internal/reliability/retry.go. Downstream services read, send commands and follow the live feed
-- through the gRPC API (internal/grpcapi/grpcapi.go). cmd/connector/main.go reads the configuration
-- (internal/config/config.go), opens the store and wires the rest together.
--
-- Which file models what. Each operation is one function from the state to a result and the next
-- state, with a helper after each call whose result the code inspects (`after_store` is what
-- `Accept` does with the answer of the store).
--   Base.antt         lists read as tables, Boolean tests, signed integers, bytes and hex, and
--                     Base/Order.antt the stable sort of ORDER BY
--   Errors.antt       Go's error values: sentinels, wrapping, errors.Is and errors.As, Error()
--   Domain.antt       internal/domain/domain.go; Domain/Validate.antt has HazardEvent.Validate,
--                     Domain/Lifecycle.antt the state machine CanTransition, Domain/Float.antt
--                     float64 as its bit pattern, Domain/Percent.antt its division by 100
--   Storage.antt      internal/storage/storage.go over migrations/0001_init.sql:
--                     Storage/Schema.antt the tables and what a statement is,
--                     Storage/Devices.antt UpsertDevice, TouchDevice, GetDevice,
--                     FindDeviceByExternalID, Storage/Events.antt InsertTelemetry,
--                     InsertHazardEvent, RecordWebhookDelivery, InsertDeadLetter,
--                     Storage/Commands.antt CreateCommand, GetCommand, FetchPendingCommands,
--                     TransitionCommand, ExpireCommands, Storage/Cipher.antt the token cipher
--                     of internal/storage/crypto.go, Storage/Connections.antt
--                     SaveProviderConnection and GetProviderConnection,
--                     Storage/Reads.antt ListDevices, LatestTelemetry, ListRecentEvents,
--                     Storage/Migrations.antt Open and migrate
--   Service.antt      what the services of one process share: database, counters, subscribers
--   Provider.antt     internal/provider/provider.go
--   Events.antt       internal/events/events.go: Accept, AcceptFromProvider, DeadLetter, Subscribe
--                     and its cancel function, publish; Events/Inbox.antt an abstract
--                     specification of Accept that Events/Inbox/Refined.antt relates it to
--   Reliability.antt  internal/reliability/retry.go: Do and backoff
--   Betagrid.antt     internal/provider/betagrid/betagrid.go: VerifySignature, Sign, Parse
--   Http.antt         the bounded read of a request's body
--   Webhook.antt      internal/webhook/webhook.go: Handler.BetaGrid
--   Commands.antt     internal/commands/commands.go: Create, dispatch, Poll, ReportResult, Get,
--                     RunReaper by its ticks
--   Ingest.antt       internal/ingest/ingest.go: auth, decode and the four handlers
--   Alphasense.antt   internal/provider/alphasense/alphasense.go: normalization, and the request
--                     with its retries; Alphasense/Client.antt FetchDevices, FetchEvents and
--                     SendCommand
--   Poller.antt       internal/provider/poller.go: Run by its rounds, and cycle
--   Oauth.antt        internal/oauth/oauth.go: AccessToken, Invalidate and the two grants
--   Grpcapi.antt      internal/grpcapi/grpcapi.go: the five unary calls; Grpcapi/Wire.antt the
--                     messages of api/proto and their translation, Grpcapi/Stream.antt
--                     StreamEvents
--   Config.antt       internal/config/config.go: Load
--   Observability.antt  internal/observability/observability.go: log levels, correlation ids,
--                     Middleware and the probes
--   Connector.antt    cmd/connector/main.go: the startup loop, the senders, the HTTP routes
--   Simulator.antt    cmd/providersim/main.go: the token endpoint, auth, units, seedAlerts,
--                     listAlerts, instructions, pushBetaGrid; Simulator/Session.antt makes it
--                     the token endpoint that the connector's token manager calls
--   Tests.antt        the theorems at concrete inputs
-- The child modules of a part are named for what they prove.
--
-- How the state corresponds. A table is a list of its rows in the order of insertion, and a SQL
-- statement rewrites the list at once, as PostgreSQL runs one statement atomically; concurrent
-- callers are sequences of operations (Storage/Commands/History.antt, Events/History.antt). Unique
-- indexes, foreign keys and checks of the schema are the refusals of the insertions. A schedule in
-- the database (`faults`) says which statements to come fail because the connection fails; when it
-- is used up, none does. `clock` is now(), and moves between operations. Instants are microseconds
-- since the zero time of Go; durations of the retry loop are int64 nanoseconds with their
-- wrap-around. A Prometheus counter is the number of its increments in a list.
--
-- Parameters. Packages uuid and pgx with the casts of PostgreSQL (`Storage.Env`), crypto/hmac with
-- crypto/sha256 and encoding/json (`Betagrid.Codec`, `Ingest.Decoder`, `Commands.Broker`), a
-- provider's command sender, the transport and the formats of a polled provider
-- (`Alphasense.Transport`, `Alphasense.Formats`), the token endpoint (`Oauth.Endpoint`), the AEAD
-- cipher and its nonces (`Storage.Cipher.Aead`), and the operation, context, timer and random
-- source of the retry loop (`Reliability.World`), timestamppb (`Grpcapi.Stamper`),
-- `time.ParseDuration` (`Config.DurationParser`) and what a migration's script does
-- (`Storage.Migrations.Runner`), the random tokens and the names that the simulator formats
-- (`Simulator.Source`) are arguments of the definitions that use them.
--
-- Bounds and termination. Every definition is total by structural recursion; there is no fuel. The
-- rounds of the retry loop recurse on the tries that are left, of which the policy has `Attempts`.
--
-- Streams and starts. `StreamEvents` runs over a list of turns: what else happens in the process,
-- and the rounds of its select loop with the case that was ready. A start runs over a list of
-- attempts, each with the statements that fail in it. Both lists are arbitrary.
--
-- Not modelled: log lines, the registration of the Prometheus series, listeners, signals and the
-- shutdown, the process of the provider simulator around its handlers, generated protobuf code, and
-- the Android application, which is another program. A Unix time so large that Go's time overflows
-- int64 is outside the model of instants. No part of the program gives `CreateCommand` an id, and a
-- given one is taken for a uuid. What a closed channel still buffers is left out, since only the
-- return of its own stream closes it. The limits that handlers are built with are natural numbers.
pub mod Base
pub mod Errors
pub mod Domain
pub mod Storage
pub mod Service
pub mod Provider
pub mod Events
pub mod Reliability
pub mod Betagrid
pub mod Http
pub mod Webhook
pub mod Commands
pub mod Ingest
pub mod Alphasense
pub mod Poller
pub mod Grpcapi
pub mod Config
pub mod Observability
pub mod Connector
pub mod Simulator
pub mod Oauth
pub mod Tests
