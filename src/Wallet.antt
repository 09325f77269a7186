-- ===== src/Wallet.antt =====
-- src/chain/config.ts and src/wallet: networks, addresses, amounts and transfers of USDC.
pub mod Networks
pub mod Usdc
pub mod Keystore
pub mod Browser
pub mod Unlocks
