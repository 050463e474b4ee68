-- ===== src/Signals.antt =====
-- The rules of `live_trading/signals` that turn the engines' results into a decision.
pub mod Filter
pub mod Regime
pub mod Mtf
pub mod Confidence
pub mod Quality
pub mod H1
pub mod Range
pub mod Indicators
pub mod Trend
pub mod Decision
