-- ===== src/Routing/Clearing.antt =====
-- `DeleteCatalogueData` of backend/internal/routing/repo.go, in one transaction.
pub mod Baseline
pub mod Outcome
pub mod Links
pub mod Again
use sesfikile.Base.{ℕ, Bool, true, not, List, any, filter, length, ◌==◌, ◌&&◌, ◌||◌, if◌then◌else◌}
use sesfikile.Base.Text.{text_eq}
use sesfikile.Boarding.Models.{IssuedPass}
use sesfikile.Routing.Models.{Stop, Route, RouteLeg, RouteGeometry, source_catalogue}
use sesfikile.Database.Schema.{Db}
use sesfikile.Database.Session.{
  Env, Error, foreign_key_violation, Result, ok, err, Action, pure, ◌>>=◌, ◌>>◌, on_tx, exec, begin,
  commit,
}

abbrev pub is_catalogue_route : Route → Bool
is_catalogue_route rt = text_eq rt.source source_catalogue

-- `IN (SELECT id FROM routes WHERE source = 'catalogue')`
abbrev pub of_catalogue : List Route → ℕ → Bool
of_catalogue routes id = any (λ (rt : Route). is_catalogue_route rt && rt.id == id) routes

abbrev pub uses_stop : Stop → RouteLeg → Bool
uses_stop s l = l.from_stop_id == s.id || l.to_stop_id == s.id

abbrev pub is_unused : List RouteLeg → Stop → Bool
is_unused legs s = text_eq s.source source_catalogue && not (any (uses_stop s) legs)

unfoldable pub drop_geometries : Db → Result (ℕ × Db)
drop_geometries d =
    let dropped = λ (g : RouteGeometry). of_catalogue d.routes g.route_id in
    ok (
      length (filter dropped d.route_geometries),
      record d { route_geometries = filter (λ g. not (dropped g)) d.route_geometries },
    )

unfoldable pub drop_legs : Db → Result (ℕ × Db)
drop_legs d =
    let dropped = λ (l : RouteLeg). of_catalogue d.routes l.route_id in
    ok (
      length (filter dropped d.route_legs),
      record d { route_legs = filter (λ l. not (dropped l)) d.route_legs },
    )

-- The rows of other tables that refer to a route.
abbrev pub is_referenced : Db → Route → Bool
is_referenced d rt =
    any (λ (l : RouteLeg). l.route_id == rt.id) d.route_legs
    || any (λ (g : RouteGeometry). g.route_id == rt.id) d.route_geometries
    || any (λ (p : IssuedPass). p.route_id == rt.id) d.boarding_pass_codes

-- A route that another row refers to cannot be deleted.
unfoldable pub drop_routes : Db → Result (ℕ × Db)
drop_routes d =
    if any (λ rt. is_catalogue_route rt && is_referenced d rt) d.routes
    then err foreign_key_violation
    else ok (
      length (filter is_catalogue_route d.routes),
      record d { routes = filter (λ rt. not (is_catalogue_route rt)) d.routes },
    )

unfoldable pub drop_stops : Db → Result (ℕ × Db)
drop_stops d = ok (
  length (filter (is_unused d.route_legs) d.stops),
  record d { stops = filter (λ s. not (is_unused d.route_legs s)) d.stops },
)

pub record Deleted : Type 0 where
  pub routes : ℕ
  pub legs : ℕ
  pub stops : ℕ
  pub geometries : ℕ

unfoldable pub delete_catalogue_data : ⦃env : Env⦄ → Action Deleted
delete_catalogue_data = do
  begin
  geometries ← exec on_tx (λ id now. drop_geometries)
  legs ← exec on_tx (λ id now. drop_legs)
  routes ← exec on_tx (λ id now. drop_routes)
  stops ← exec on_tx (λ id now. drop_stops)
  commit
  pure (record { routes = routes; legs = legs; stops = stops; geometries = geometries })
