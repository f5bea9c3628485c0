-- ===== src/Routing/Repo/Runs.antt =====
-- What the reads of the routing tables return while the database answers.
use sesfikile.Base.{ℕ, List, [], ◌∷◌, map, ◌≡◌, refl}
use sesfikile.Base.Sort.{order_by}
use sesfikile.Routing.Models.{Route, RouteWithLegs}
use sesfikile.Routing.Repo.{
  legs_of, route_by_name, list_routes, list_legs_for_route, load_legs, all_routes_with_legs,
}
use sesfikile.Database.Schema.{Db}
use sesfikile.Database.Session.{Env, Session, ok, pure, on_pool, tick}
use sesfikile.Database.Healthy.{IsUp, run_bind, run_query}

abbrev pub load : Db → Route → RouteWithLegs
load d rt = record { route = rt; legs = legs_of rt.id d }

module _ ⦃env : Env⦄ where
  -- Every route, in the order of the names.
  abbrev pub loaded : Db → List RouteWithLegs
  loaded d = map (load d) (order_by route_by_name d.routes)

module _ ⦃env : Env⦄ (up : IsUp env) where
  pub run_list_legs :
      (route : ℕ) (s : Session) → list_legs_for_route route s ≡ (ok (legs_of route s.pool), tick s)
  unfolding list_legs_for_route
  run_list_legs route s = run_query up on_pool _ s

  pub run_load_legs :
      (routes : List Route) (s : Session)
      → (n : ℕ) × (load_legs routes s ≡ (ok (map (load s.pool) routes), record s { clock = n }))
  unfolding load_legs pure
  run_load_legs [] s = (s.clock, refl)
  run_load_legs (rt ∷ rest) s =
      let (n, ih) = run_load_legs rest (tick s) in
      (
        n,
        run_bind (list_legs_for_route rt.id) s (tick s) _ (run_list_legs rt.id s)
            (run_bind (load_legs rest) (tick s) _ _ ih refl),
      )

  pub run_all_routes :
      (s : Session)
      → (n : ℕ) × (all_routes_with_legs s ≡ (ok (loaded s.pool), record s { clock = n }))
  unfolding all_routes_with_legs list_routes
  run_all_routes s =
      let (n, h) = run_load_legs (order_by route_by_name s.pool.routes) (tick s) in
      (n, run_bind list_routes s (tick s) load_legs (run_query up on_pool _ s) h)
