-- ===== src/Engine.antt =====
-- The payment engine of src/engine: its tuning, the provider contracts, and src/engine/service.ts
-- part by part.
pub mod Config
pub mod Providers
pub mod Common
pub mod Mock
pub mod Faulty
pub mod Real
pub mod Tasks
pub mod Manual
pub mod Env
pub mod Lock
pub mod Quote
pub mod Settlement
pub mod Conversion
pub mod Funding
pub mod Execute
pub mod Payment
pub mod Webhook
pub mod Postings
pub mod Operator
pub mod Changes
pub mod Serve
pub mod Reconcile
