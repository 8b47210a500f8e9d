-- ===== src/Strategy.antt =====
-- freqpanda_strategy: the schema, its validation, condition trees, and the interpreter.
pub mod Schema
pub mod Indicators
pub mod Validation
pub mod Conditions
pub mod Interpreter
pub mod Causality
pub mod Shape
pub mod Rows
pub mod Safety
