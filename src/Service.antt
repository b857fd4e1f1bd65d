-- ===== src/Service.antt =====
-- src/service: what is stored of the traffic, and how routes and channels are looked up.
pub mod Redaction
pub mod Routing
