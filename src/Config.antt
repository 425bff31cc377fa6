-- ===== src/Config.antt =====
-- internal/config/app_config.go, and `fileAgentConfig` of internal/agent/file_config.go.
pub mod App
pub mod AgentFile
