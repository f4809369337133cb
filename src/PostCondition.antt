-- ===== src/PostCondition.antt =====
-- app/rust/src/parser/post_condition.rs: what a transaction promises about the transfers it makes.
pub mod Principal
pub mod Codes
pub mod Condition
pub mod Display
pub mod Lines
