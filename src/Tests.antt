-- ===== src/Tests.antt =====
-- The theorems at concrete inputs that meet their hypotheses, and runs of the code.
mod Fixtures
mod Definitions
mod Runs
mod Operations
mod Schedules
mod Once
mod Secrets
mod Logs
mod Accounts
mod Work
mod Hooks
mod Catalogs
mod SignIn
mod Requests
mod Passwords
