-- ===== src/Agent.antt =====
-- The agents: the server's side, the process that runs on a host, and its metrics.
pub mod Repository
pub mod Service
pub mod Runtime
pub mod Collector
