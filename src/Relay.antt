-- ===== src/Relay.antt =====
-- src/llm/relay: how a request is admitted, and sent to one channel after another.
pub mod RateLimit
pub mod Trace
pub mod Run
pub mod Channel
pub mod KeyLoop
pub mod Route
pub mod Endpoints
pub mod Candidates
pub mod Sse
pub mod Keys
pub mod Access
