-- ===== src/Routing/Repo.antt =====
-- backend/internal/routing/repo.go: the statements on stops, routes and legs. The geometries are
-- in Routing.Geometry, and the removal of the catalogue in Routing.Clearing.
pub mod Order
pub mod Runs
mod Tests
use sesfikile.Base.{
  ℕ, Bool, true, false, not, Option, none, some, List, [], ◌∷◌, ◌++◌, any, filter, find?, length,
  leb, ◌==◌, ◌&&◌, ◌||◌, if◌then◌else◌,
}
use sesfikile.Base.Int.{ℤ}
use sesfikile.Base.Text.{Text, text_eq}
use sesfikile.Base.Sort.{order_by}
use sesfikile.Routing.Models.{
  Stop, Route, RouteLeg, RouteWithLegs, source_seed, source_catalogue, is_some,
}
use sesfikile.Wallet.Accounts.{scan, missing_to_not_found}
use sesfikile.Database.Schema.{Db}
use sesfikile.Database.Session.{
  Env, Error, unique_violation, foreign_key_violation, Result, ok, err, Action, pure, catch, ◌>>=◌,
  on_pool, query, exec,
}

abbrev pub add_stop : Text → Option ℕ → Option ℕ → Text → ℕ → ℕ → Db → Result (Stop × Db)
add_stop name latitude longitude source id now d =
    let s : Stop = record {
      id = id;
      name = name;
      latitude = latitude;
      longitude = longitude;
      source = source;
      created_at = now;
    } in
    ok (s, record d { stops = d.stops ++ s ∷ [] })

abbrev pub add_route : Text → Text → Text → ℕ → ℕ → Db → Result (Route × Db)
add_route name association_name source id now d =
    let rt : Route = record {
      id = id;
      name = name;
      association_name = association_name;
      source = source;
      created_at = now;
    } in
    ok (rt, record d { routes = d.routes ++ rt ∷ [] })

abbrev pub new_leg : (route from to sequence : ℕ) → ℤ → Option ℕ → Bool → ℕ → ℕ → RouteLeg
new_leg route from to sequence fare distance estimated id now = record {
  id = id;
  route_id = route;
  from_stop_id = from;
  to_stop_id = to;
  sequence = sequence;
  fare_cents = fare;
  distance_meters = distance;
  fare_estimated = estimated;
  created_at = now;
}

abbrev pub has_route : ℕ → Db → Bool
has_route id d = any (λ (rt : Route). rt.id == id) d.routes

abbrev pub has_stop : ℕ → Db → Bool
has_stop id d = any (λ (s : Stop). s.id == id) d.stops

-- The rows that a leg refers to exist, and (route_id, sequence) is unique.
unfoldable pub add_leg : (ℕ → ℕ → RouteLeg) → ℕ → ℕ → Db → Result (RouteLeg × Db)
add_leg make id now d =
    let l = make id now in
    if has_route l.route_id d && has_stop l.from_stop_id d && has_stop l.to_stop_id d
    then (if any (λ (k : RouteLeg). k.route_id == l.route_id && k.sequence == l.sequence)
          d.route_legs
        then err unique_violation
        else ok (l, record d { route_legs = d.route_legs ++ l ∷ [] }))
    else err foreign_key_violation

abbrev pub by_sequence : RouteLeg → RouteLeg → Bool
by_sequence a b = leb a.sequence b.sequence

abbrev pub legs_of : ℕ → Db → List RouteLeg
legs_of route d = order_by by_sequence (filter (λ (l : RouteLeg). l.route_id == route) d.route_legs)

module _ ⦃env : Env⦄ where
  unfoldable pub create_stop : Text → ℕ → ℕ → Action Stop
  create_stop name latitude longitude =
      exec on_pool (add_stop name (some latitude) (some longitude) source_seed)

  unfoldable pub create_catalogue_stop : Text → ℕ → ℕ → Action Stop
  create_catalogue_stop name latitude longitude =
      exec on_pool (add_stop name (some latitude) (some longitude) source_catalogue)

  unfoldable pub create_stop_no_coordinates : Text → Action Stop
  create_stop_no_coordinates name = exec on_pool (add_stop name none none source_catalogue)

  unfoldable pub get_stop_by_name : Text → Action Stop
  get_stop_by_name name =
      catch (query on_pool (λ d. scan (find? (λ (s : Stop). text_eq s.name name) d.stops)))
        missing_to_not_found

  unfoldable pub get_stop_by_id : ℕ → Action Stop
  get_stop_by_id id =
      catch (query on_pool (λ d. scan (find? (λ (s : Stop). s.id == id) d.stops)))
        missing_to_not_found

  abbrev pub stop_by_name : Stop → Stop → Bool
  stop_by_name a b = env.collates a.name b.name

  unfoldable pub list_stops : Action (List Stop)
  list_stops = query on_pool (λ d. ok (order_by stop_by_name d.stops))

  unfoldable pub list_stops_with_coordinates : Action (List Stop)
  list_stops_with_coordinates =
      query on_pool
        (λ d. ok (order_by stop_by_name (filter (λ (s : Stop). is_some s.latitude) d.stops)))

  unfoldable pub count_stops_without_coordinates : Action ℕ
  count_stops_without_coordinates =
      query on_pool (λ d. ok (length (filter (λ (s : Stop). not (is_some s.latitude)) d.stops)))

  unfoldable pub count_stops_by_source : Text → Action ℕ
  count_stops_by_source source =
      query on_pool (λ d. ok (length (filter (λ (s : Stop). text_eq s.source source) d.stops)))

  unfoldable pub create_route : Text → Text → Action Route
  create_route name association_name = exec on_pool (add_route name association_name source_seed)

  unfoldable pub create_catalogue_route : Text → Text → Action Route
  create_catalogue_route name association_name =
      exec on_pool (add_route name association_name source_catalogue)

  unfoldable pub get_route_by_name : Text → Action Route
  get_route_by_name name =
      catch (query on_pool (λ d. scan (find? (λ (rt : Route). text_eq rt.name name) d.routes)))
        missing_to_not_found

  unfoldable pub get_route_by_id : ℕ → Action Route
  get_route_by_id id =
      catch (query on_pool (λ d. scan (find? (λ (rt : Route). rt.id == id) d.routes)))
        missing_to_not_found

  abbrev pub route_by_name : Route → Route → Bool
  route_by_name a b = env.collates a.name b.name

  unfoldable pub list_routes : Action (List Route)
  list_routes = query on_pool (λ d. ok (order_by route_by_name d.routes))

  unfoldable pub count_routes_by_source : Text → Action ℕ
  count_routes_by_source source =
      query on_pool (λ d. ok (length (filter (λ (rt : Route). text_eq rt.source source) d.routes)))

  unfoldable pub create_route_leg : (route from to sequence : ℕ) → ℤ → Action RouteLeg
  create_route_leg route from to sequence fare =
      exec on_pool (add_leg (new_leg route from to sequence fare none false))

  unfoldable pub create_catalogue_route_leg : (route from to : ℕ) → ℤ → ℕ → Action RouteLeg
  create_catalogue_route_leg route from to fare distance =
      exec on_pool (add_leg (new_leg route from to 1 fare (some distance) true))

  unfoldable pub list_legs_for_route : ℕ → Action (List RouteLeg)
  list_legs_for_route route = query on_pool (λ d. ok (legs_of route d))

  -- `for _, rt := range routes`
  unfoldable pub load_legs : List Route → Action (List RouteWithLegs)
  load_legs [] = pure []
  load_legs (rt ∷ rest) =
      let others = load_legs rest in
      do
        legs ← list_legs_for_route rt.id
        result ← others
        pure (record { route = rt; legs = legs } ∷ result)

  unfoldable pub all_routes_with_legs : Action (List RouteWithLegs)
  all_routes_with_legs = list_routes >>= load_legs
