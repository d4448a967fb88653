-- ===== src/Api.antt =====
-- engine/internal/api: the parts of the HTTP API that decide something themselves.
pub mod Auth
pub mod Hooks
pub mod Http
pub mod Logs
pub mod Password
pub mod RateLimit
pub mod Runs
pub mod SignIn
pub mod Tokens
pub mod Uses
pub mod Secrets
pub mod Servers
pub mod Triggers
pub mod Users
pub mod Workflows
