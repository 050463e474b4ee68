-- ===== src/Tests.antt =====
-- Runs of the models on concrete inputs, with the decimals of Float/Fixed.antt for floats.
pub mod Entry
pub mod Risk
pub mod Capital
pub mod Trailing
pub mod Panel
pub mod Aggregate
pub mod Signals
pub mod EventBus
pub mod Decision
pub mod Ipc
pub mod Trend
