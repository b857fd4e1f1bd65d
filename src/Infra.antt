-- ===== src/Infra.antt =====
-- src/infra: the cache of channels and routes.
pub mod Cache
