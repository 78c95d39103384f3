-- ===== src/Economy.antt =====
-- internal/economy: wallets.
pub mod Wallet
pub mod Balance
pub mod ChangesOk
pub mod WalletOk
pub mod Refusals
pub mod Batch
