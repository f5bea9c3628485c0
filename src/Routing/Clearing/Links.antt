-- ===== src/Routing/Clearing/Links.antt =====
-- DeleteCatalogueData and the rows that are not the catalogue's.
use sesfikile.Base.{Bool, true, not, List, any, filter, ◌≡◌, ◌⊎◌, All}
use sesfikile.Base.Text.{text_eq}
use sesfikile.Routing.Models.{Stop, RouteLeg, RouteGeometry, source_catalogue}
use sesfikile.Routing.Repo.{has_route, has_stop}
use sesfikile.Routing.Clearing.{is_catalogue_route, of_catalogue, uses_stop}
use sesfikile.Database.Schema.{Db}
use sesfikile.Database.Session.{Session}
use sesfikile.Database.Ensures.{Ensures}

-- The rows that legs and polylines refer to are there.
pub record IsLinked (d : Db) : Type 0 where
  pub legs :
      All
        (λ (l : RouteLeg).
          (has_route l.route_id d ≡ true)
          × (has_stop l.from_stop_id d ≡ true)
          × (has_stop l.to_stop_id d ≡ true))
        d.route_legs
  pub geometries : All (λ (g : RouteGeometry). has_route g.route_id d ≡ true) d.route_geometries

-- The stops at an end of a leg are used.
abbrev Uses : List RouteLeg → RouteLeg → Type 0
Uses legs l =
    (s : Stop) → (s.id ≡ l.from_stop_id) ⊎ (s.id ≡ l.to_stop_id) → any (uses_stop s) legs ≡ true

-- The legs that stay, with what they refer to.
abbrev kept_legs : Db → List RouteLeg
kept_legs d = filter (λ (l : RouteLeg). not (of_catalogue d.routes l.route_id)) d.route_legs

abbrev pub is_catalogue_stop : Stop → Bool
is_catalogue_stop s = text_eq s.source source_catalogue

-- What a run keeps, whichever way it ends.
pub record Keeps (d e : Db) : Type 0 where
  pub links : IsLinked d → IsLinked e
  pub seed_routes :
      filter (λ rt. not (is_catalogue_route rt)) e.routes
      ≡ filter (λ rt. not (is_catalogue_route rt)) d.routes
  pub seed_stops :
      filter (λ s. not (is_catalogue_stop s)) e.stops
      ≡ filter (λ s. not (is_catalogue_stop s)) d.stops
  pub seed_legs :
      filter (λ (l : RouteLeg). not (of_catalogue d.routes l.route_id)) e.route_legs
      ≡ filter (λ (l : RouteLeg). not (of_catalogue d.routes l.route_id)) d.route_legs
  pub seed_geometries :
      filter (λ (g : RouteGeometry). not (of_catalogue d.routes g.route_id)) e.route_geometries
      ≡ filter (λ (g : RouteGeometry). not (of_catalogue d.routes g.route_id)) d.route_geometries
  pub accounts : e.accounts ≡ d.accounts
  pub ledger_transactions : e.ledger_transactions ≡ d.ledger_transactions
  pub ledger_postings : e.ledger_postings ≡ d.ledger_postings
  pub boarding_pass_codes : e.boarding_pass_codes ≡ d.boarding_pass_codes
  pub users : e.users ≡ d.users
  pub drivers : e.drivers ≡ d.drivers
  pub vehicles : e.vehicles ≡ d.vehicles
  pub vehicle_assignments : e.vehicle_assignments ≡ d.vehicle_assignments
  pub vehicle_fuel_quotas : e.vehicle_fuel_quotas ≡ d.vehicle_fuel_quotas
  pub fuel_authorizations : e.fuel_authorizations ≡ d.fuel_authorizations
