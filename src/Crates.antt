-- ===== src/Crates.antt =====
-- The crates that the parsers of app/rust call, nom 5.1 and arrayref 0.3. Their code is not in the
-- repository: a parser takes them as an instance argument, with the documented behaviour as laws.
mod Reads
mod Interface
mod Steps
mod WireFormat
mod Derived
mod Iterate
pub use Reads.*
pub use Interface.*
pub use Steps.*
pub use WireFormat.*
pub use Derived.*
pub use Iterate.*
