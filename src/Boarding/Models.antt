-- ===== src/Boarding/Models.antt =====
-- backend/internal/boarding/models.go, and the stored pass of passstore.go.
use sesfikile.Base.{ℕ, Bool, ltb}
use sesfikile.Base.Int.{ℤ}
use sesfikile.Base.Text.{Text}

pub record PassPayload : Type 0 where
  pub commuter_id : ℕ
  pub route_id : ℕ
  pub from_stop_id : ℕ
  pub to_stop_id : ℕ
  pub fare_cents : ℤ
  pub issued_at : ℕ
  pub expires_at : ℕ
  pub nonce : Text

-- `now.After(p.ExpiresAt)`
unfoldable pub is_expired : PassPayload → ℕ → Bool
is_expired p now = ltb p.expires_at now

pub record IssuedPass : Type 0 where
  pub code : Text
  pub pass_token : Text
  pub nonce : Text
  pub commuter_id : ℕ
  pub route_id : ℕ
  pub expires_at : ℕ
  pub created_at : ℕ
