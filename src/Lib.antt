-- ===== src/Lib.antt =====
-- The monitoring system: host agents sample a machine and send telemetry to a collector, which
-- publishes it to a message stream; an aggregator stores it in a database; an API serves it, and the
-- warning thresholds that the agents poll.
--
-- Parts, by file (paths from the repository's root):
--   Base, Float64, Instant, Json, Nats, Wire, Warn, Http: what the parts share. Wire has the messages
--     of proto/telemetry, Nats the interface of JetStream and what it keeps for a consumer
--     (internal/nats/jetstream.go), Warn the thresholds as both cmd/api/thresholds.go and
--     cmd/agent/config_poller.go have them.
--   Collector (cmd/collector): Requests and Publisher (the JSON and Client.Publish), Grpc
--     (grpc_server.go), Handler (handler.go), RateLimit (ratelimit.go), Server (server.go).
--   Aggregator (cmd/aggregator/consumer.go): Messages (metricMsg, logMsg, spanMsg), Consumer (the
--     three callbacks, and runs of them as a step relation), System (the consumers and the stream;
--     Running: the goroutines of Run, whose subscriptions come late or fail).
--   Storage (internal/storage/repository.go): Tables (rows, inserts, settings), Select (WHERE, ORDER
--     BY, LIMIT, DISTINCT ON, MAX), Queries, Services (QueryServices).
--   Agent (cmd/agent): Client and Hostname (client.go), Send and Status (send, sendLog, raiseStatus,
--     popStatus of collector.go), Alerter (alerter.go), Edge, Rounds, Network and Heartbeat (the
--     sampling loops of collector.go), Interleaving (send while the loops run side by side),
--     Thresholds (config_poller.go).
--   Api (cmd/api): Thresholds (thresholds.go), Handler (handler.go), Services (getServices,
--     streamServices), Stream (streamMetrics and pushMetrics of sse.go), Router (router.go).
--   Config (internal/config/config.go): the services' settings.
--   Ids: newID, newSpanID and newAggSpanID (client.go, grpc_server.go, consumer.go).
--   Startup (internal/otel/setup.go), Storage/Connection (internal/storage/postgres.go),
--     Nats/Connection (Connect of jetstream.go), and a module Process in Collector, Aggregator, Agent
--     and Api: the start of each process and what its main does up to its end (its main.go).
--   Metrics (internal/metrics/prometheus.go): the vectors of counters.
--   Lifecycle: deferred calls, log.Fatal, and what a process opens and closes. Shutdown: how the four
--     processes end.
--   Journey: metrics, log entries and spans from the agent to the API's answer, thresholds from a PUT
--     to an agent's warning, and the spans of a batch.
--   Fixtures: samples for the tests, which stand in the modules Examples.
--
-- How the code is modelled:
--   * Methods that change a struct are functions from its record to its record. What the agent does
--     is a list of actions, and the results of its calls are inputs of what follows them. Methods
--     that run under a lock are single steps, and so is each request to the API, though handleSet saves
--     outside the lock; one round of a loop reads its threshold once, and the rounds of the agent's
--     loops follow one another, except in Agent/Interleaving, whose steps are those of the counter of
--     failures.
--   * A float64 is its bit pattern, with the order of IEEE 754 and its NaNs written out; conversions,
--     quotients and formatting are parameters. A time is a number of nanoseconds, and RFC 3339 text a
--     parameter with the law that parsing returns what was formatted in the years 0 to 9999. Those are
--     years of the instant in UTC, where Time.MarshalJSON reads the year in the zone of the value, so
--     that the two differ within a day of the ends of this range.
--   * JSON is a tree, and the text of JSON the library's. Keys are compared exactly, where Go's
--     decoder would accept another spelling by letter case too. Times and maps are decoded as
--     encoding/json documents it: null leaves the old value, a later member overwrites.
--   * The protobuf messages are taken as the values that they are made of. On the wire an empty map
--     is nil; the model keeps the two apart, and the maps that the agent makes are never empty.
--   * JetStream, the token bucket, the Prometheus counters, strconv.Atoi, the collation of the database
--     and the formatting of floats and times are parameters; each has a concrete instance among the
--     tests. A failed publication may have been stored.
--   * The server keeps a message for a consumer until an ack arrives, and delivers the kept messages
--     again and in any order. What the processes' libraries answer at the start are arguments.
--   * A statement meets one of three fates: executed, never arrived, or executed with the answer
--     lost. Columns of times keep microseconds. Rows that ORDER BY leaves in any order keep the order
--     of the table. The fates, the clock, random identifiers and readings of the host are arguments.
--   * The only fuel is that of `decimal`, the number itself, which has more steps than digits.
--   * Counters of 32 and 64 bits wrap around as in Go.
--
-- Not modelled: Gin's redirects of paths with a slash too many or too few; logging, and the metrics of
-- the services except the aggregator's counters and the requests_total of the collector and the API,
-- which only call libraries; the age limit of the stream, 24 hours; the generated code, the frontend
-- and the deployment.
pub mod Ids
pub mod Startup
pub mod Base
pub mod Float64
pub mod Instant
pub mod Json
pub mod Journey
pub mod Lifecycle
pub mod Shutdown
pub mod Nats
pub mod Wire
pub mod Warn
pub mod Http
pub mod Metrics
pub mod Collector
pub mod Storage
pub mod Aggregator
pub mod Agent
pub mod Api
pub mod Config
pub mod Fixtures
