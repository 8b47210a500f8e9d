-- ===== src/Execution.antt =====
-- freqpanda_execution: live and paper execution of strategies.
pub mod LiveInterpreter
pub mod Parity
pub mod Risk
pub mod Broker
pub mod Feed
pub mod Bot
pub mod Repository
pub mod Supervisor
pub mod Runtime
