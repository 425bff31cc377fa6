-- ===== src/Host.antt =====
-- internal/host and internal/host/sqlite: the repositories, the secret cipher and the service.
pub mod HostRepository
pub mod MethodRepository
pub mod SnapshotRepository
pub mod SystemInfoRepository
pub mod Cipher
pub mod Port
pub mod Service
