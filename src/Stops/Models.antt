-- ===== src/Stops/Models.antt =====
-- backend/internal/stops/models.go, and the float operations that geo.go and match.go use. A
-- float64 stands as its 64 bits.
use sesfikile.Base.{ℕ, Bool, Option}
use sesfikile.Base.Text.{Text}

pub data Status : Type 0 where
  pending unmatched acknowledged : Status

pub record Request : Type 0 where
  pub id : ℕ
  pub commuter_id : ℕ
  pub route_id : ℕ
  pub stop_id : ℕ
  pub stop_name : Text
  pub requested_at : ℕ
  pub status : Status
  pub matched_driver_id : Option ℕ
  pub acked_at : Option ℕ

-- The machine's operations, the functions of Go's `math`, and the constants of the source.
pub record Floats : Type 0 where
  pub add : ℕ → ℕ → ℕ
  pub sub : ℕ → ℕ → ℕ
  pub mul : ℕ → ℕ → ℕ
  pub div : ℕ → ℕ → ℕ
  pub sin : ℕ → ℕ
  pub cos : ℕ → ℕ
  pub sqrt : ℕ → ℕ
  pub atan2 : ℕ → ℕ → ℕ
  pub less : ℕ → ℕ → Bool
  pub one : ℕ
  pub two : ℕ
  pub rad : ℕ
  pub earth_radius_meters : ℕ
  pub max_float : ℕ
