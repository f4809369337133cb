-- ===== src/Spending.antt =====
-- app/rust/src/parser/spending_condition.rs: who signs a transaction, and with what signature.
pub mod Signer
pub mod Singlesig
pub mod Multisig
pub mod Condition
pub mod Display
