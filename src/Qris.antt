-- ===== src/Qris.antt =====
-- src/qris/parse.ts: the EMVCo payload of a QRIS code, read as tagged fields and closed by a CRC.
pub mod Reader
pub mod Code
pub mod Fields
pub mod Amount
pub mod Gate
pub mod Seal
pub mod Accept
