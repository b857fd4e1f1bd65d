-- ===== src/Plugin.antt =====
-- src/llm/plugin: what rewrites requests and answers on their way.
pub mod Thinking
