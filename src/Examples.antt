-- ===== src/Examples.antt =====
-- Examples: each theorem applied at a concrete input.
mod Tokens
mod Auth
mod Access
mod Sessions
mod Runtime
mod Database
mod Admin
mod Apps
mod Settings
mod Logs
mod Jobs
