-- ===== src/Fuel/Models.antt =====
-- backend/internal/fuel/models.go.
use sesfikile.Base.{ℕ, Option}
use sesfikile.Base.Int.{ℤ, ◌-ℤ◌}
use sesfikile.Base.Word.{i64}

pub data AuthorizationStatus : Type 0 where
  reserved confirmed : AuthorizationStatus

pub record VehicleQuota : Type 0 where
  pub vehicle_id : ℕ
  pub owner_user_id : ℕ
  pub quota_cents : ℤ
  pub reserved_cents : ℤ
  pub used_cents : ℤ
  pub updated_at : ℕ

unfoldable pub available_cents : VehicleQuota → ℤ
available_cents q = i64 (i64 (q.quota_cents -ℤ q.reserved_cents) -ℤ q.used_cents)

-- `litres` is a float that is stored and never computed with; it is kept as thousandths.
pub record Authorization : Type 0 where
  pub id : ℕ
  pub vehicle_id : ℕ
  pub litres : ℕ
  pub amount_cents : ℤ
  pub status : AuthorizationStatus
  pub created_at : ℕ
  pub confirmed_at : Option ℕ
