-- ===== src/Payload.antt =====
-- app/rust/src/parser/transaction_payload.rs: what a transaction does.
pub mod TokenTransfer
pub mod ContractCall
mod Data
pub mod Display
pub mod Items
unfoldable pub use Data.*
