-- ===== src/Wallet.antt =====
-- backend/internal/wallet: the double-entry ledger.
pub mod Models
pub mod Accounts
pub mod Split
pub mod Repo
pub mod Effects
pub mod Staging
pub mod Sums
pub mod Transfers
pub mod Charges
pub mod Invariant
pub mod History
pub mod Listing
pub mod Handlers
mod Tests
