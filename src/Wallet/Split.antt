-- ===== src/Wallet/Split.antt =====
-- `splitFare` of backend/internal/wallet/repo.go, in int64 arithmetic.
pub mod Shares
use sesfikile.Base.Int.{ℤ, ◌-ℤ◌, ◌*ℤ◌, ◌/ℤ◌}
use sesfikile.Base.Word.{i64}

pub record FareSplit : Type 0 where
  pub platform_cents : ℤ
  pub driver_cents : ℤ
  pub owner_cents : ℤ

-- `fareCents * int64(pct) / 100`
unfoldable pub share : ℤ → ℤ → ℤ
share fare_cents pct = i64 (fare_cents *ℤ pct) /ℤ 100

unfoldable pub split_fare : ℤ → ℤ → ℤ → FareSplit
split_fare fare_cents platform_pct driver_pct = record {
  platform_cents = share fare_cents platform_pct;
  driver_cents = share fare_cents driver_pct;
  owner_cents =
      i64 (i64 (fare_cents -ℤ share fare_cents platform_pct) -ℤ share fare_cents driver_pct);
}
