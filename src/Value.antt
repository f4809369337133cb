-- ===== src/Value.antt =====
-- app/rust/src/parser/value.rs and value/: Clarity values.
pub mod Id
pub mod Len
pub mod Encoding
pub mod Parse
pub mod Nesting
pub mod Int
pub mod Tuple
