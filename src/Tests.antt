-- ===== src/Tests.antt =====
-- A sample state with one authorized payment, runs of the engine on it, and the theorems applied
-- at it.
pub mod Sample
pub mod Runs
pub mod Requests
pub mod Records
pub mod Money
pub mod Codes
pub mod Wallet
pub mod Reports
pub mod Calls
pub mod Keys
pub mod Locks
pub mod Pages
pub mod Tools
