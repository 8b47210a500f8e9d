-- ===== src/Examples.antt =====
-- The theorems at concrete inputs, and runs of the code that can be followed in the source.
mod Sample
mod Strategy
mod Backtest
mod Backtesting
mod Execution
mod Data
mod Supervisor
mod Api
mod Optimize
mod Folds
mod Jobs
mod System
mod Runtime
mod Vault
