-- ===== src/Common.antt =====
-- app/rust/src/parser/parser_common.rs: the wire types that the other parsers share.
pub mod Limits
pub mod ClarityName
pub mod ContractName
pub mod StacksAddress
pub mod TransactionVersion
pub mod HashMode
pub mod AssetInfo
pub mod Bytes
