-- ===== src/Stops/Handlers/Checks.antt =====
-- What RequestStop (backend/internal/stops/handlers.go) has read when its checks have passed.
use sesfikile.Base.{
  ℕ, false, ◌≡◌, refl, sym, ap, ◌∙◌, inl, inr, some, List, [], ◌∷◌, find?, subst, Bool-cases, ◌==◌,
}
use sesfikile.Base.Text.{Text, text_eq}
use sesfikile.Identity.Tokens.{Claims}
use sesfikile.Routing.Models.{source_catalogue, Route, RouteLeg}
use sesfikile.Routing.Repo.{legs_of, get_stop_by_id, get_route_by_id, list_legs_for_route}
use sesfikile.Stops.Match.{RouteStop}
use sesfikile.Stops.Loading.{stop_ids, load_route_stops}
use sesfikile.Stops.Loading.Places.{AreAt, Loaded, AnyError, load_stops-Loaded}
use sesfikile.Stops.Handlers.{
  RequestStopRequest, Prepared, new_request, target_of, prepare_stops, prepare_legs, prepare_on,
  prepare,
}
use sesfikile.Database.Schema.{Db}
use sesfikile.Database.Session.{Env, Session, Result, ok, on_pool}
use sesfikile.Database.Healthy.{lookup_cases, query_cases}
use sesfikile.Database.Ensures.{Holds}
use sesfikile.Http.{answer, parsed, Uuid}
use sesfikile.Http.Yields.{Yields, attempt-Yields, parsed-Yields}

-- The tables have the route, it is not an imported one, the places are those of the stops along
-- its legs, and the target is the stop among them.
pub record IsPrepared (id now commuter route stop : ℕ) (before : Db) (p : Prepared) (s : Session)
    : Type 0 where
  pub rt : Route
  pub there : find? (λ (x : Route). x.id == route) before.routes ≡ some rt
  pub live : text_eq rt.source source_catalogue ≡ false
  pub leg : RouteLeg
  pub others : List RouteLeg
  pub legs : legs_of route before ≡ leg ∷ others
  pub places : AreAt before (stop_ids leg others) p.route_stops
  pub target : target_of p.route_stops stop ≡ some p.target_stop
  pub name : Text
  pub made : p.request ≡ new_request id commuter route stop name now

module _ ⦃env : Env⦄ where
  read_route :
      (route : ℕ) (s s' : Session) (rt : Route)
      → get_route_by_id route s ≡ (ok rt, s')
      → (find? (λ (x : Route). x.id == route) s.pool.routes ≡ some rt) × (s'.pool ≡ s.pool)
  unfolding get_route_by_id
  read_route route s s' rt h =
      elim (lookup_cases on_pool (λ d. find? (λ (x : Route). x.id == route) d.routes) s) [
        | inl (found, there, e) ↦
            (cc (e, h, there), ap (λ (r : Result Route × Session). r.1.pool) (sym h ∙ e))
        | inr (inl (gone, e)) ↦ cc (e, h)
        | inr (inr (down, e)) ↦ cc (e, h)
      ]

  read_legs :
      (route : ℕ) (s s' : Session) (legs : List RouteLeg)
      → list_legs_for_route route s ≡ (ok legs, s')
      → (legs_of route s.pool ≡ legs) × (s'.pool ≡ s.pool)
  unfolding list_legs_for_route
  read_legs route s s' legs h = elim (query_cases on_pool (λ d. ok (legs_of route d)) s) [
    | inl e ↦ (cc (e, h), ap (λ (r : Result (List RouteLeg) × Session). r.1.pool) (sym h ∙ e))
    | inr (down, e) ↦ cc (e, h)
  ]

  module _ (uuid : Uuid) (id now commuter route stop : ℕ) (before : Db) (rt : Route)
      (there : find? (λ (x : Route). x.id == route) before.routes ≡ some rt) where
    abbrev Good : Prepared → Session → Type 0
    Good = IsPrepared id now commuter route stop before

    prepare_stops-Good :
        (leg : RouteLeg) (others : List RouteLeg) (stops : List RouteStop) (s : Session)
        → text_eq rt.source source_catalogue ≡ false
        → legs_of route before ≡ leg ∷ others
        → AreAt before (stop_ids leg others) stops
        → Yields Good (prepare_stops uuid id now commuter route stop stops s)
    unfolding prepare_stops answer
    prepare_stops-Good leg others stops s live legs places =
        parsed-Yields Good (target_of stops stop) _ _ _ s λ target on.
          attempt-Yields Good (get_stop_by_id stop) _ _ s (λ e s'. tt)
            λ named s' h. record {
              rt = rt;
              there = there;
              live = live;
              leg = leg;
              others = others;
              legs = legs;
              places = places;
              target = on;
              name = named.name;
              made = refl;
            }

    prepare_legs-Good :
        (legs : List RouteLeg) (s : Session)
        → text_eq rt.source source_catalogue ≡ false
        → legs_of route before ≡ legs
        → s.pool ≡ before
        → Yields Good (prepare_legs uuid id now commuter route stop legs s)
    unfolding prepare_legs answer load_route_stops
    prepare_legs-Good [] s live read same = tt
    prepare_legs-Good (leg ∷ legs) s live read same =
        attempt-Yields Good (load_route_stops leg legs) _ _ s (λ e s'. tt)
          λ loaded s' h.
            let places : Loaded before (stop_ids leg legs) loaded s' =
              subst (Holds AnyError (Loaded before (stop_ids leg legs))) h
                (load_stops-Loaded before (stop_ids leg legs) s same).holds in
            parsed-Yields Good loaded _ _ _ s'
              λ stops e. prepare_stops-Good leg legs stops s' live read (places.1 stops e)

    prepare_on-Good :
        (s : Session)
        → s.pool ≡ before
        → Yields Good (prepare_on uuid id now commuter route stop rt s)
    unfolding prepare_on answer
    prepare_on-Good s same = elim (Bool-cases (text_eq rt.source source_catalogue)) [
      | inl imported ↦ rw (prepare_on, imported) tt
      | inr live ↦
          rw (prepare_on, live)
            (attempt-Yields Good (list_legs_for_route route) _ _ s (λ e s'. tt)
              λ legs s' h.
                let (read, kept) = read_legs route s s' legs h in
                prepare_legs-Good legs s' live (rw same at read) (kept ∙ same))
    ]

  module _ (uuid : Uuid) (id now : ℕ) (claims : Claims) (req : RequestStopRequest) (route stop : ℕ)
      (s : Session) where
    pub prepare-Good :
        uuid.parse req.route_id ≡ some route
        → uuid.parse req.stop_id ≡ some stop
        → Yields
            (IsPrepared id now claims.user_id route stop s.pool)
            (prepare uuid id now (some claims) (some req) s)
    unfolding prepare parsed
    prepare-Good pr ps =
        rw (prepare, pr, ps)
          (attempt-Yields (IsPrepared id now claims.user_id route stop s.pool)
            (get_route_by_id route) _ _ s (λ e s'. tt)
            λ rt s' h.
              prepare_on-Good uuid id now claims.user_id route stop s.pool rt
                (read_route route s s' rt h).0 s' (read_route route s s' rt h).1)
