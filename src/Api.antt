-- ===== src/Api.antt =====
-- freqpanda_api: what a caller may do to strategies, jobs and bots, and what a worker does with a job.
pub mod Bots
pub mod Rows
pub mod Strategies
pub mod Jobs
pub mod Results
pub mod Tasks
pub mod Backtests
pub mod System
pub mod Auth
pub mod Credentials
