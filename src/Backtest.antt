-- ===== src/Backtest.antt =====
-- freqpanda_backtest: costs, the equity curve, metrics, whole backtests and walk-forward windows.
pub mod Costs
pub mod Equity
pub mod Metrics
pub mod Engine
pub mod Batch
pub mod Walkforward
