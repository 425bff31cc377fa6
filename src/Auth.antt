-- ===== src/Auth.antt =====
-- internal/authentication and the two middlewares that stand on it.
pub mod Tables
pub mod Repository
pub mod Tokens
pub mod Service
pub mod Middleware
