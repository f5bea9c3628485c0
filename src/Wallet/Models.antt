-- ===== src/Wallet/Models.antt =====
-- backend/internal/wallet/models.go. Ids are only compared, so they are numbers; times are
-- numbers of ticks.
use sesfikile.Base.{ℕ, Option}
use sesfikile.Base.Int.{ℤ}
use sesfikile.Base.Text.{Text}

pub data AccountType : Type 0 where
  commuter_wallet driver_earnings owner_revenue platform_fee funding_source fuel_account :
      AccountType

pub AccountType-discrete : Discrete AccountType
AccountType-discrete = hlevel

pub data TransactionKind : Type 0 where
  topup fare fuel_allocation : TransactionKind

-- The owner is absent for the system accounts.
pub record Account : Type 0 where
  pub id : ℕ
  pub owner_user_id : Option ℕ
  pub type : AccountType
  pub created_at : ℕ

-- What `ChargeFare` writes into a transaction's metadata.
pub record FareMetadata : Type 0 where
  pub vehicle_id : ℕ
  pub commuter_id : ℕ
  pub driver_user_id : ℕ
  pub owner_user_id : ℕ
  pub fare_cents : ℤ
  pub platform_cents : ℤ
  pub driver_cents : ℤ
  pub owner_cents : ℤ

-- The maps that the program stores as JSON metadata.
pub data Metadata : Type 0 where
  note : Text → Metadata
  fare_details : FareMetadata → Metadata
  allocation_details : ℤ → ℤ → ℤ → Metadata

pub record LedgerTransaction : Type 0 where
  pub id : ℕ
  pub kind : TransactionKind
  pub idempotency_key : Option Text
  pub metadata : Metadata
  pub created_at : ℕ

-- A debit is negative, a credit is positive.
pub record LedgerPosting : Type 0 where
  pub id : ℕ
  pub transaction_id : ℕ
  pub account_id : ℕ
  pub amount_cents : ℤ
  pub created_at : ℕ

-- A posting joined back to its transaction.
pub record Transaction : Type 0 where
  pub transaction_id : ℕ
  pub kind : TransactionKind
  pub amount_cents : ℤ
  pub occurred_at : ℕ
  pub vehicle_id : Option ℕ
