-- ===== src/Entry.antt =====
-- The live-entry decisions of `live_trading/trading`: the policy that authorises an entry, the
-- position slots, and the drift guard on the execution price.
pub mod Policy
pub mod Slots
pub mod Signal
pub mod Guard
