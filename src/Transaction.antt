-- ===== src/Transaction.antt =====
-- app/rust/src/parser/transaction.rs: a whole transaction.
pub mod PostConditions
pub mod State
pub mod Read
pub mod Signers
pub mod Items
pub mod FromBytes
pub mod Modes
pub mod Failed
