-- ===== src/Scheduler.antt =====
-- src/llm/scheduler: what the router remembers of its channels and keys between requests.
pub mod Circuit
pub mod Capacity
pub mod Status
pub mod Sticky
pub mod Metrics
pub mod Runtime
pub mod LoadBalancer
pub mod Scoring
