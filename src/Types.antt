-- ===== src/Types.antt =====
-- Package types: the conversion between Decred and Rosetta values.
pub mod Text
pub mod Ops
pub mod Address
pub mod Block
pub mod Errors
pub mod Rosetta
pub mod Amount
pub mod Metadata
pub mod Account
pub mod Transactions
pub mod Samples
mod Tests
