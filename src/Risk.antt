-- ===== src/Risk.antt =====
-- The risk controls of `live_trading/risk`.
pub mod Aggregate
pub mod Capital
pub mod Guardian
pub mod Trailing
