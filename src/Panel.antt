-- ===== src/Panel.antt =====
-- The Telegram control panel, `telegram_panel`: who may do what, and how often.
pub mod EventBus
pub mod RateLimiter
pub mod Users
pub mod Auth
pub mod Session
