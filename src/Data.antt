-- ===== src/Data.antt =====
-- freqpanda_data: candles from an exchange.
pub mod Exchange
pub mod Store
pub mod Pipeline
