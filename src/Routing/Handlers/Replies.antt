-- ===== src/Routing/Handlers/Replies.antt =====
-- The replies of the routing handlers, from the committed tables, while the database answers.
use sesfikile.Base.{
  ℕ, true, false, Option, none, some, List, [], map, find?, ◌==◌, ◌||◌, ◌≡◌, refl, ap, ◌∙◌, inl,
  inr, Option-cases,
}
use sesfikile.Base.Text.{Text, text_eq, is_empty}
use sesfikile.Base.Dict.{Dict}
use sesfikile.Base.Sort.{order_by}
use sesfikile.Routing.Models.{Stop, Route}
use sesfikile.Routing.Graph.{SearchResult}
use sesfikile.Routing.Repo.{
  stop_by_name, legs_of, list_stops, get_stop_by_id, get_stop_by_name, get_route_by_id,
  list_legs_for_route,
}
use sesfikile.Routing.Repo.Runs.{run_list_legs}
use sesfikile.Routing.Handlers.{
  RouteDetailResponse, SearchResponse, index_stops, to_route_response, to_leg_response,
  to_segment_response, stops_by_id, serve_get_route, resolve_stop, serve_search,
}
use sesfikile.Database.Schema.{Db}
use sesfikile.Database.Session.{Env, Session, not_found, ok, pure, on_pool, tick}
use sesfikile.Database.Healthy.{IsUp, found, run_bind, run_query, run_lookup}
use sesfikile.Http.{Reply, reply, refuse, answer, parsed, Uuid}
use sesfikile.Http.Runs.{run_attempt, run_attempt_err}

module _ ⦃env : Env⦄ (uuid : Uuid) where
  -- The names of stops by id.
  abbrev pub stop_index : Db → Dict Stop
  stop_index d = index_stops (order_by stop_by_name d.stops) []

  -- The stop that a parameter names: by id if it is one, else by name.
  abbrev pub resolved : Db → Text → Option Stop
  resolved d value = elim (uuid.parse value) [
    | some id ↦ find? (λ (s : Stop). s.id == id) d.stops
    | none ↦ find? (λ (s : Stop). text_eq s.name value) d.stops
  ]

  abbrev pub path_reply : Db → Option SearchResult → Reply SearchResponse
  path_reply d none = refuse 404 "no route found between the given stops"
  path_reply d (some r) = reply 200 (record {
    transfers = r.transfers;
    total_fare_cents = r.total_fare_cents;
    segments = map (to_segment_response uuid (stop_index d)) r.segments;
  })

module _ ⦃env : Env⦄ (uuid : Uuid) (up : IsUp env) where
  run_stops_by_id : (s : Session) → stops_by_id uuid s ≡ (ok (stop_index uuid s.pool), tick s)
  unfolding stops_by_id list_stops pure
  run_stops_by_id s = run_bind list_stops s (tick s) _ (run_query up on_pool _ s) refl

  run_resolve :
      (value : Text) (s : Session)
      → resolve_stop uuid value s ≡ (found (resolved uuid s.pool value), tick s)
  unfolding resolve_stop get_stop_by_id get_stop_by_name
  run_resolve value s = elim (Option-cases (uuid.parse value)) [
    | inl name ↦
        rw (resolve_stop, resolved, name)
          (run_lookup up on_pool (λ d. find? (λ (x : Stop). text_eq x.name value) d.stops) s)
    | inr (id, e) ↦
        rw (resolve_stop, resolved, e)
          (run_lookup up on_pool (λ d. find? (λ (x : Stop). x.id == id) d.stops) s)
  ]

  -- A search that names no path to look for: an empty parameter is answered by 400, and a name or
  -- id of no stop by 404, the first parameter's before the second's. Nothing is written.
  pub serve_search_refusals :
      (from to : Text) (s : Session)
      → ((is_empty from || is_empty to) ≡ true
          → serve_search uuid from to s ≡ (refuse 400 "from and to are required", s))
        × ((is_empty from || is_empty to) ≡ false
            → resolved uuid s.pool from ≡ none
            → serve_search uuid from to s ≡ (refuse 404 "from stop not found", tick s))
        × ((a : Stop)
            → (is_empty from || is_empty to) ≡ false
            → resolved uuid s.pool from ≡ some a
            → resolved uuid s.pool to ≡ none
            → serve_search uuid from to s ≡ (refuse 404 "to stop not found", tick (tick s)))
  unfolding serve_search answer
  serve_search_refusals from to s = (
    λ e. rw (serve_search, e) refl,
    λ named gone.
        rw (serve_search, named)
          (run_attempt_err (resolve_stop uuid from) s (tick s) _ _ {e = not_found}
            (run_resolve from s ∙ rw gone refl)),
    λ a named ra gone.
        rw (serve_search, named)
          (run_attempt (resolve_stop uuid from) s (tick s) _ _ {a = a}
            (run_resolve from s ∙ rw ra refl)
            (run_attempt_err (resolve_stop uuid to) (tick s) (tick (tick s)) _ _ {e = not_found}
              (run_resolve to (tick s) ∙ rw gone refl))),
  )

  run_get_route_by_id :
      (id : ℕ) (s : Session)
      → get_route_by_id id s ≡ (found (find? (λ (rt : Route). rt.id == id) s.pool.routes), tick s)
  unfolding get_route_by_id
  run_get_route_by_id id s =
      run_lookup up on_pool (λ d. find? (λ (rt : Route). rt.id == id) d.routes) s

  -- What GET /routes/{id} replies.
  abbrev pub route_reply : Text → Db → Reply RouteDetailResponse
  route_reply param d = elim (uuid.parse param) [
    | none ↦ refuse 400 "id must be a valid uuid"
    | some id ↦ elim (find? (λ (rt : Route). rt.id == id) d.routes) [
      | none ↦ refuse 404 "route not found"
      | some rt ↦ reply 200 (record {
        route = to_route_response uuid rt;
        legs = map (to_leg_response uuid (stop_index uuid d)) (legs_of id d);
      })
    ]
  ]

  run_get_route :
      (param : Text) (s : Session)
      → (n : ℕ) × (serve_get_route uuid param s
          ≡ (route_reply param s.pool, record s { clock = n }))
  unfolding serve_get_route parsed answer
  run_get_route param s = elim (Option-cases (uuid.parse param)) [
    | inl bad ↦ (s.clock, rw (serve_get_route, route_reply, bad) refl)
    | inr (id, e) ↦ elim (Option-cases (find? (λ (rt : Route). rt.id == id) s.pool.routes)) [
      | inl gone ↦ (
        (tick s).clock,
        rw (serve_get_route, route_reply, e, gone)
            (run_attempt_err (get_route_by_id id) s (tick s) _ _ {e = not_found}
              (run_get_route_by_id id s ∙ rw gone refl)),
      )
      | inr (rt, there) ↦ (
        (tick (tick (tick s))).clock,
        rw (serve_get_route, route_reply, e, there)
            (run_attempt (get_route_by_id id) s (tick s) _ _ {a = rt}
              (run_get_route_by_id id s ∙ rw there refl)
              (run_attempt (list_legs_for_route id) (tick s) (tick (tick s)) _ _
                (run_list_legs up id (tick s))
                (run_attempt (stops_by_id uuid) (tick (tick s)) (tick (tick (tick s))) _ _
                  (run_stops_by_id (tick (tick s))) refl))),
      )
    ]
  ]

  -- While the database answers, a route is shown with all of its legs in the order of their
  -- sequence numbers; an id that is none is answered by 400, one of no route by 404. Nothing is
  -- written.
  pub serve_get_route-eq-route_reply :
      (param : Text) (s : Session)
      → ((serve_get_route uuid param s).0 ≡ route_reply param s.pool)
        × ((serve_get_route uuid param s).1.pool ≡ s.pool)
  serve_get_route-eq-route_reply param s =
      let (n, e) = run_get_route param s in
      (
        ap (λ (r : Reply RouteDetailResponse × Session). r.0) e,
        ap (λ (r : Reply RouteDetailResponse × Session). r.1.pool) e,
      )
