-- ===== src/Tests.antt =====
-- The theorems of the development at concrete inputs, and runs of the code that is modelled.
pub mod Orders
mod Staking
mod Evidence
mod Trigger
pub mod Ledger
mod Holds
mod Limits
mod Rpc
mod Encoding
mod Consensus
mod Ingestion
mod Pages
mod Money
mod Disputes
