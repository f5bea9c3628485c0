-- ===== src/Routing/Models.antt =====
-- backend/internal/routing/models.go. A float64 is stored only, so it stands as its 64 bits.
use sesfikile.Base.{ℕ, Bool, true, false, Option, none, some, List, if◌then◌else◌}
use sesfikile.Base.Int.{ℤ}
use sesfikile.Base.Text.{Text, bytes}

-- `Source`: one of two strings.
abbrev pub source_seed : Text
source_seed = bytes "seed"

abbrev pub source_catalogue : Text
source_catalogue = bytes "catalogue"

pub record Stop : Type 0 where
  pub id : ℕ
  pub name : Text
  pub latitude : Option ℕ
  pub longitude : Option ℕ
  pub source : Text
  pub created_at : ℕ

abbrev pub is_some {ℓ} : {A : Type ℓ} → Option A → Bool
is_some none = false
is_some (some a) = true

unfoldable pub coordinates_known : Stop → Bool
coordinates_known s = if is_some s.latitude then is_some s.longitude else false

pub record Route : Type 0 where
  pub id : ℕ
  pub name : Text
  pub association_name : Text
  pub source : Text
  pub created_at : ℕ

pub record RouteLeg : Type 0 where
  pub id : ℕ
  pub route_id : ℕ
  pub from_stop_id : ℕ
  pub to_stop_id : ℕ
  pub sequence : ℕ
  pub fare_cents : ℤ
  pub distance_meters : Option ℕ
  pub fare_estimated : Bool
  pub created_at : ℕ

pub record RouteWithLegs : Type 0 where
  pub route : Route
  pub legs : List RouteLeg

-- A row of `route_geometries`; the JSONB value stands as its text.
pub record RouteGeometry : Type 0 where
  pub route_id : ℕ
  pub geometry : Text
  pub point_count : ℕ
  pub created_at : ℕ

-- The [lon, lat] pairs of a polyline.
abbrev pub Polyline : Type 0
Polyline = List (ℕ × ℕ)
