-- ===== src/Api.antt =====
-- src/api: the HTTP routes over the engine. The web framework's routing and its answer to a handler
-- that throws (status 500 in plain text) are taken as it documents them.
pub mod Answers
pub mod Idempotency
pub mod Payments
pub mod Operator
pub mod Callbacks
pub mod WalletReads
pub mod Server
pub mod Replays
pub mod Changes
pub mod Books
pub mod Signed
pub mod Effects
pub mod Refines
pub mod Once
pub mod Trail
pub mod Reach
