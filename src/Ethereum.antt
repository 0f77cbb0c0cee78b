-- ===== src/Ethereum.antt =====
-- src/ethereum: EnigmaContractWriterAPI.js, the transactions of a worker, and EnigmaContractReaderAPI.js.
pub mod Writer
pub mod Confirmed
pub mod Committed
mod Tests
pub mod Account
pub mod Reader
pub mod Subscribed
