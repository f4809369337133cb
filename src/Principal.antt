-- ===== src/Principal.antt =====
-- app/rust/src/parser/principal.rs: standard and contract principals.
mod Data
pub mod Standard
pub mod Contract
unfoldable pub use Data.*
