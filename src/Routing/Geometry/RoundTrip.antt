-- ===== src/Routing/Geometry/RoundTrip.antt =====
-- What is read back of a polyline that was stored.
use sesfikile.Base.{
  ℕ, sym, Bool, true, false, Option, none, some, List, [], ◌∷◌, ◌++◌, any, find?, length, ◌≡◌, refl,
  ap, ◌∙◌, ◌==◌, if◌then◌else◌, arith, Bool-cases, Option-cases, inl, inr,
}
use sesfikile.Base.Text.{Text}
use sesfikile.Routing.Models.{RouteGeometry, Polyline}
use sesfikile.Routing.Repo.{has_route}
use sesfikile.Routing.Geometry.{
  PolylineJson, IsFaithful, add_geometry, or_bad_json, create_route_geometry, get_route_geometry,
}
use sesfikile.Database.Schema.{Db}
use sesfikile.Database.Healthy.{IsUp, run_bind, run_bind_err, run_lookup, run_exec}
use sesfikile.Database.Session.{
  bad_json, not_found, Env, Session, Result, ok, err, pure, raise, ◌>>=◌, on_pool, tick,
}

abbrev is_of : ℕ → RouteGeometry → Bool
is_of route g = g.route_id == route

find?-new :
    (route : ℕ) (t : Text) (n now : ℕ) (gs : List RouteGeometry)
    → any (is_of route) gs ≡ false
    → find?
        (is_of route)
        (gs ++ record { route_id = route; geometry = t; point_count = n; created_at = now } ∷ [])
      ≡ some (record { route_id = route; geometry = t; point_count = n; created_at = now })
find?-new route t n now [] h = ground arith
find?-new route t n now (g ∷ gs) h = ground (arith, find?-new route t n now gs)

abbrev polyline_of : PolylineJson → Option RouteGeometry → Result Polyline
polyline_of json none = err not_found
polyline_of json (some g) = elim (json.unmarshal g.geometry) [
  | none ↦ err bad_json
  | some points ↦ ok points
]

decoded :
    (json : PolylineJson) (o : Option Polyline) (s : Session)
    → or_bad_json o s ≡ ((elim o [ none ↦ err bad_json | some points ↦ ok points ]), s)
unfolding pure raise
decoded json none s = refl
decoded json (some points) s = refl

module _ ⦃env : Env⦄ (json : PolylineJson) (faithful : IsFaithful json) (up : IsUp env) where
  run_get :
      (route : ℕ) (s : Session)
      → (get_route_geometry json route s).0
        ≡ polyline_of json (find? (is_of route) s.pool.route_geometries)
  unfolding get_route_geometry
  run_get route s = elim (Option-cases (find? (is_of route) s.pool.route_geometries)) [
    | inl gone ↦
        ap (λ (r : Result Polyline × Session). r.0)
          (run_bind_err _ s (tick s) {e = not_found} (λ g. or_bad_json (json.unmarshal g.geometry))
            (run_lookup up on_pool (λ d. find? (is_of route) d.route_geometries) s ∙ rw gone refl))
        ∙ sym (rw gone refl)
    | inr (g, there) ↦
        ap (λ (r : Result Polyline × Session). r.0)
          (run_bind _ s (tick s) {a = g} (λ g. or_bad_json (json.unmarshal g.geometry))
            (run_lookup up on_pool (λ d. find? (is_of route) d.route_geometries) s ∙ rw there refl)
            (decoded json (json.unmarshal g.geometry) (tick s)))
        ∙ sym (rw there refl)
  ]

  abbrev stored : ℕ → Polyline → Text → Session → Db
  stored route points t s = record s.pool {
    route_geometries =
        s.pool.route_geometries
        ++ record {
          route_id = route;
          geometry = json.jsonb t;
          point_count = length points;
          created_at = env.now s.clock;
        }
          ∷ [];
  }

  run_create :
      (route : ℕ) (points : Polyline) (t : Text) (s : Session) (d : Db)
      → json.marshal points ≡ some t
      → add_geometry route
          (json.jsonb t)
          (length points)
          (env.new_id s.clock)
          (env.now s.clock)
          s.pool
        ≡ ok (tt, d)
      → create_route_geometry json route points s ≡ (ok tt, record (tick s) { pool = d })
  unfolding create_route_geometry pure
  run_create route points t s d enc h =
      run_bind (or_bad_json (json.marshal points)) s s {a = t} _ (rw enc refl)
        (run_exec up on_pool _ s h)

  -- With the database up, a polyline that encoding/json accepts is stored for a route that exists:
  -- it is the one that is read back if the route had none, and else the old one is.
  pub get_route_geometry-create_route_geometry :
      (route : ℕ) (points : Polyline) (t : Text) (s : Session)
      → json.marshal points ≡ some t
      → has_route route s.pool ≡ true
      → ((create_route_geometry json route points >>= λ _. get_route_geometry json route) s).0 ≡ (
          if any (λ (g : RouteGeometry). g.route_id == route) s.pool.route_geometries
          then (get_route_geometry json route s).0
          else ok points)
  unfolding add_geometry
  get_route_geometry-create_route_geometry route points t s enc known =
      elim (Bool-cases (any (is_of route) s.pool.route_geometries)) [
        | inl old ↦
            ap (λ (r : Result Polyline × Session). r.0)
              (run_bind (create_route_geometry json route points) s (tick s)
                (λ _. get_route_geometry json route)
                (run_create route points t s s.pool enc (rw old refl)) refl)
            ∙ run_get route (tick s)
            ∙ sym (run_get route s)
            ∙ sym (rw old refl)
        | inr fresh ↦
            ap (λ (r : Result Polyline × Session). r.0)
              (run_bind (create_route_geometry json route points) s _
                (λ _. get_route_geometry json route)
                (run_create route points t s (stored route points t s) enc (rw (fresh, known) refl))
                refl)
            ∙ run_get route _
            ∙ rw
                (
                  find?-new route (json.jsonb t) (length points) (env.now s.clock)
                      s.pool.route_geometries fresh,
                  polyline_of,
                  faithful points t enc,
                  fresh,
                )
                refl
      ]
