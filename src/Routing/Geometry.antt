-- ===== src/Routing/Geometry.antt =====
-- The polylines of backend/internal/routing/repo.go. encoding/json and the JSONB column are
-- libraries, so they are an argument.
pub mod RoundTrip
use sesfikile.Base.{
  ℕ, Bool, Option, none, some, List, [], ◌∷◌, ◌++◌, any, find?, length, leb, ◌≡◌, ◌==◌,
  if◌then◌else◌,
}
use sesfikile.Base.Text.{Text}
use sesfikile.Base.Sort.{order_by}
use sesfikile.Routing.Models.{RouteGeometry, Polyline}
use sesfikile.Routing.Repo.{has_route}
use sesfikile.Wallet.Accounts.{scan, missing_to_not_found}
use sesfikile.Database.Schema.{Db}
use sesfikile.Database.Session.{
  Env, Error, bad_json, foreign_key_violation, Result, ok, err, Action, pure, raise, catch, ◌>>=◌,
  on_pool, query, exec,
}

-- `json.Marshal`, the text that the column gives back for a text, and `json.Unmarshal`.
pub record PolylineJson : Type 0 where
  pub marshal : Polyline → Option Text
  pub jsonb : Text → Text
  pub unmarshal : Text → Option Polyline

-- What is marshalled, stored and read back is what it was.
abbrev pub IsFaithful : PolylineJson → Type 0
IsFaithful json =
    (points : Polyline) (t : Text)
    → json.marshal points ≡ some t
    → json.unmarshal (json.jsonb t) ≡ some points

pub record RouteGeometryRow : Type 0 where
  pub route_id : ℕ
  pub points : Polyline

-- `ON CONFLICT (route_id) DO NOTHING`
unfoldable pub add_geometry : ℕ → Text → ℕ → ℕ → ℕ → Db → Result (Unit {0} × Db)
add_geometry route geometry count id now d =
    if any (λ (g : RouteGeometry). g.route_id == route) d.route_geometries
    then ok (tt, d)
    else if has_route route d
    then ok (
      tt,
      record d {
        route_geometries =
            d.route_geometries
            ++ record {
              route_id = route;
              geometry = geometry;
              point_count = count;
              created_at = now;
            }
              ∷ [];
      },
    )
    else err foreign_key_violation

abbrev pub or_bad_json {ℓ} : {A : Type ℓ} → Option A → Action A
or_bad_json none = raise bad_json
or_bad_json (some a) = pure a

abbrev pub by_route_id : RouteGeometry → RouteGeometry → Bool
by_route_id a b = leb a.route_id b.route_id

module _ (json : PolylineJson) where
  unfoldable pub read_rows : List RouteGeometry → Action (List RouteGeometryRow)
  read_rows [] = pure []
  read_rows (g ∷ rest) =
      let others = read_rows rest in
      do
        points ← or_bad_json (json.unmarshal g.geometry)
        rows ← others
        pure (record { route_id = g.route_id; points = points } ∷ rows)

  module _ ⦃env : Env⦄ where
    unfoldable pub create_route_geometry : ℕ → Polyline → Action (Unit {0})
    create_route_geometry route points = do
      t ← or_bad_json (json.marshal points)
      exec on_pool (add_geometry route (json.jsonb t) (length points))

    unfoldable pub get_route_geometry : ℕ → Action Polyline
    get_route_geometry route = do
      g ←
          catch
            (query on_pool
              (λ d. scan (find? (λ (g : RouteGeometry). g.route_id == route) d.route_geometries)))
            missing_to_not_found
      or_bad_json (json.unmarshal g.geometry)

    unfoldable pub list_route_geometries : Action (List RouteGeometryRow)
    list_route_geometries =
        query on_pool (λ d. ok (order_by by_route_id d.route_geometries)) >>= read_rows
