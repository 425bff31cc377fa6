-- ===== src/Host/Service.antt =====
-- internal/host/service.go. Logging is left out: it changes nothing that the code reads.
pub mod Hosts
pub mod Methods
pub mod Ping
pub mod Metrics
