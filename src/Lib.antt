-- ===== src/Lib.antt =====
-- Galaxy Router: the relay of LLM requests to upstream channels, and the scheduler behind it.
--
-- A request names a model. The relay looks up the route of it, in a cache or the database, and turns
-- it into a list of candidates, one per channel, ordered by tiers, health and scores, and runs
-- over them in order: a channel that the load balancer has shut out is passed over, so is one whose
-- slots are all taken, and the rest are tried until one answers. An attempt on a channel goes over
-- the channel's keys, of which the circuit breaker shuts out those that keep failing. What comes of
-- an attempt is fed back into the load balancer. Keys of clients are limited in requests and tokens.
--
-- Which file models which part:
--   Errors            src/error/proxy.rs, and sanitize_upstream_error of src/llm/protocol/sse/error.rs
--   Scheduler.Circuit       src/llm/scheduler/circuit.rs, CircuitBreaker per channel and key
--   Scheduler.Capacity      src/llm/scheduler/capacity.rs, the slots; Races has its atomic accesses
--   Scheduler.Status        src/llm/scheduler/state/channel_status.rs, the blacklist of a channel
--   Scheduler.Sticky        src/llm/scheduler/sticky.rs, the channel of a session
--   Scheduler.Metrics       src/llm/scheduler/metrics.rs, counters of the selections
--   Scheduler.Runtime       src/llm/scheduler/runtime.rs, moving averages
--   Scheduler.LoadBalancer  src/llm/scheduler/state/mod.rs, LoadBalancerState, which holds these
--   Relay.RateLimit         src/llm/relay/ratelimit.rs, the limits of a client's key
--   Relay.Trace             src/llm/scheduler/trace.rs, the record of a run's attempts
--   Relay.Run               src/llm/relay/run.rs, RelayRun and RelayStreamRun over the candidates
--   Scheduler.Scoring       src/llm/scheduler/scoring.rs, the score of a candidate and the order by it
--   Relay.Channel           src/domain/channel.rs, and api_key_attempts of src/service/routing/mod.rs;
--                           Relay.Keys and Relay.Endpoints have what is shown of it
--   Relay.Route             src/domain/route.rs, a route and its items
--   Relay.Candidates        src/llm/relay/candidates.rs, which channels are offered and in which order
--   Relay.KeyLoop           src/llm/relay/executor/mod.rs and executor/outcome.rs, one attempt
--   Relay.Access            src/llm/relay/pipeline/access.rs, whether a key may use a model, its budget
--   Relay.Sse               src/llm/protocol/sse/parsing.rs, and the loops of src/llm/relay/stream_loop.rs
--                           that cut the bytes of a stream into events
--   Service.Routing         src/service/routing/mod.rs, the lookups of routes and channels
--   Service.Redaction       src/service/stats/redaction.rs, what is stored of a body
--   Infra.Cache             src/infra/cache.rs, ProxyCache with its index by model
--   Plugin.Thinking         src/llm/plugin/thinking.rs, the text between <think> and </think>
--   Base                    texts, lists, maps, JSON values and the interface of floats
--
-- The correspondence. A method is a function from its state to its state and answer, named as in the
-- code; a section under a lock is one step, and so is one atomic access in Capacity.Races. A struct
-- is a record with its fields, an enum a data type. A map that is never counted is a function, one
-- whose size counts is a list of entries. A text is the list of its code points; where the code
-- slices it by bytes, the width of its characters in UTF-8 counts, and a slice inside a character,
-- which panics, gives none. Numbers are natural numbers, and those of a fixed width wrap at it as in
-- a release build. Times are nanoseconds and arguments: each method reads a clock once. Floats are
-- an interface, Base.Float, which the tests fill with fixed point numbers.
-- The sort of the candidates is the standard library's: the stable order where the comparison is a
-- total order on the items, and else, as with a NaN among the scores, an order that is a parameter,
-- Scoring.OpenOrder, of the same items; the panic that the library allows there is left out.
--
-- Most loops are over lists and need no fuel. The loops over a buffer, of the thinking blocks and of
-- the events of a stream, have as much fuel as the buffer has characters, which is enough since every
-- pass takes at least one off. The executor of a run, the upstream of a key loop and the queries of
-- the repositories are interfaces: the network, the database, the preparation and conversion of
-- bodies, the JSON parser and printer, regular expressions, the order of keys in a hash map and the
-- wait between two passes.
--
-- Not modelled: the streaming key loop and what is done with an event of a stream, the rest of the
-- request pipeline, the other plugins, usage statistics and prices, the conversion of protocols, and
-- everything around HTTP, SQL and tokens. The log is left out throughout. A run is taken without
-- interference of other runs on the slots; Capacity.Races shows what interference does to a slot.
mod Base
pub mod Errors
pub mod Scheduler
pub mod Relay
pub mod Plugin
pub mod Service
pub mod Infra
