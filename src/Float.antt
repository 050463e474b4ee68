-- ===== src/Float.antt =====
-- The floating-point numbers of the sources: a parameter with named laws, and an instance.
mod Model
pub mod Fixed
pub mod Values
unfoldable pub use Model.*
