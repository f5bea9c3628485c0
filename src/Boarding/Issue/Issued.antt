-- ===== src/Boarding/Issue/Issued.antt =====
-- The whole of IssuePass, from the request to the stored pass.
use sesfikile.Base.{
  ℕ, false, none, some, find?, ◌==◌, ◌+◌, ◌≡◌, ◌⊎◌, inl, inr, refl, sym, subst, Bool-cases,
  Option-cases,
}
use sesfikile.Base.Int.{ℤ}
use sesfikile.Base.Text.{Text, text_eq}
use sesfikile.Routing.Models.{Route, source_catalogue}
use sesfikile.Routing.Graph.{fare_for_segment}
use sesfikile.Routing.Repo.{legs_of, get_route_by_id, list_legs_for_route}
use sesfikile.Boarding.Models.{PassPayload}
use sesfikile.Boarding.Token.{sign}
use sesfikile.Identity.Tokens.{Claims}
use sesfikile.Boarding.Issue.{
  IssuePassRequest, IssuePassResponse, Issuer, payload_of, sign_and_store, issue_on, issue_pass,
}
use sesfikile.Boarding.Issue.Outcome.{IsFilled, IsUnchanged, IsStored, sign_and_store-Ends}
use sesfikile.Database.Schema.{Db}
use sesfikile.Database.Session.{Env, Session, Error, database, not_found, ok, err, on_pool, tick}
use sesfikile.Database.Healthy.{lookup_cases, query_cases}
use sesfikile.Http.{Reply, refuse, answer, parsed}
use sesfikile.Http.Runs.{run_attempt, run_attempt_err}

module _ (h : Issuer) ⦃env : Env⦄ where
  -- What a pass says: whose it is, for which ride and fare, from now until it has lived as long as
  -- a pass does, under the nonce that was drawn.
  abbrev pub promised : (commuter route from to : ℕ) → ℤ → PassPayload
  promised commuter route from to fare = record {
    commuter_id = commuter;
    route_id = route;
    from_stop_id = from;
    to_stop_id = to;
    fare_cents = fare;
    issued_at = h.now;
    expires_at = h.now + h.ttl;
    nonce = h.nonce;
  }

  -- A pass of a commuter for a ride on a route of the tables that is not an imported one, at the
  -- fare of its legs, signed and stored.
  pub record Ride (before : Db) (commuter from to route : ℕ) (rt : Route)
      (r : Reply IssuePassResponse × Session) : Type 0 where
    pub live : text_eq rt.source source_catalogue ≡ false
    pub fare : ℤ
    pub priced : fare_for_segment (legs_of route before) from to ≡ some fare
    pub token : Text
    pub signed : sign h.codec h.secret (promised commuter route from to fare) ≡ some token
    pub stored : IsStored h before (promised commuter route from to fare) token r

  abbrev Answers :
      (before : Db) (commuter from to route : ℕ)
      → Route
      → Reply IssuePassResponse × Session
      → Type 0
  Answers before commuter from to route rt r =
      IsUnchanged h before r ⊎ Ride before commuter from to route rt r

  module _ (commuter from to route : ℕ) (rt : Route) (s : Session)
      (live : text_eq rt.source source_catalogue ≡ false) where
    run_unpriced :
        list_legs_for_route route s ≡ (ok (legs_of route s.pool), tick s)
        → fare_for_segment (legs_of route s.pool) from to ≡ none
        → issue_on h commuter from to route rt s
          ≡ (refuse 404 "no valid path from from_stop_id to to_stop_id on this route", tick s)
    unfolding issue_on parsed
    run_unpriced loaded priced =
        rw (issue_on, live)
          (run_attempt (list_legs_for_route route) s (tick s) _ _ {a = legs_of route s.pool} loaded
            (rw priced refl))

    run_priced :
        (fare : ℤ)
        → list_legs_for_route route s ≡ (ok (legs_of route s.pool), tick s)
        → fare_for_segment (legs_of route s.pool) from to ≡ some fare
        → issue_on h commuter from to route rt s
          ≡ sign_and_store h (payload_of h commuter route from to fare) (tick s)
    unfolding issue_on parsed
    run_priced fare loaded priced =
        rw (issue_on, live)
          (run_attempt (list_legs_for_route route) s (tick s) _ _ {a = legs_of route s.pool} loaded
            (rw priced refl))

    run_unloaded :
        list_legs_for_route route s ≡ (err database, tick s)
        → issue_on h commuter from to route rt s ≡ (refuse 500 "failed to load route legs", tick s)
    unfolding issue_on
    run_unloaded down =
        rw (issue_on, live)
          (run_attempt_err (list_legs_for_route route) s (tick s) _ _ {e = database} down)

  module _ (filled : IsFilled h) where
    issue_priced-Answers :
        (commuter from to route : ℕ) (rt : Route) (s : Session) (fare : ℤ)
        → text_eq rt.source source_catalogue ≡ false
        → fare_for_segment (legs_of route s.pool) from to ≡ some fare
        → Answers s.pool commuter from to route rt
            (sign_and_store h (payload_of h commuter route from to fare) (tick s))
    issue_priced-Answers commuter from to route rt s fare live priced =
        elim (sign_and_store-Ends h s.pool filled (payload_of h commuter route from to fare)
          (tick s) refl) [
            | inl kept ↦ inl kept
            | inr (token, signed, stored) ↦ inr (record {
              live = live;
              fare = fare;
              priced = priced;
              token = token;
              signed = signed;
              stored = stored;
            })
          ]

    issue_on-Answers :
        (commuter from to route : ℕ) (rt : Route) (s : Session)
        → Answers s.pool commuter from to route rt (issue_on h commuter from to route rt s)
    unfolding issue_on answer list_legs_for_route
    issue_on-Answers commuter from to route rt s =
        elim (Bool-cases (text_eq rt.source source_catalogue)) [
          | inl imported ↦ inl (rw (issue_on, imported) (refl, 422, _, refl))
          | inr live ↦ elim (query_cases on_pool (λ d. ok (legs_of route d)) s) [
            | inl loaded ↦ elim (Option-cases (fare_for_segment (legs_of route s.pool) from to)) [
              | inl unpriced ↦
                  subst (Answers s.pool commuter from to route rt)
                    (sym (run_unpriced commuter from to route rt s live loaded unpriced))
                    (inl (refl, 404, _, refl))
              | inr (fare, priced) ↦
                  subst (Answers s.pool commuter from to route rt)
                    (sym (run_priced commuter from to route rt s live fare loaded priced))
                    (issue_priced-Answers commuter from to route rt s fare live priced)
            ]
            | inr (down, e) ↦
                subst (Answers s.pool commuter from to route rt)
                  (sym (run_unloaded commuter from to route rt s live e)) (inl (refl, 500, _, refl))
          ]
        ]

    run_found :
        (claims : Claims) (req : IssuePassRequest) (route from to : ℕ) (rt : Route) (s : Session)
        → h.uuid.parse req.route_id ≡ some route
        → h.uuid.parse req.from_stop_id ≡ some from
        → h.uuid.parse req.to_stop_id ≡ some to
        → get_route_by_id route s ≡ (ok rt, tick s)
        → issue_pass h (some claims) (some req) s
          ≡ issue_on h claims.user_id from to route rt (tick s)
    unfolding issue_pass parsed
    run_found claims req route from to rt s pr pf pt e =
        rw (issue_pass, pr, pf, pt)
          (run_attempt (get_route_by_id route) s (tick s) _ _ {a = rt} e refl)

    run_missing :
        (claims : Claims) (req : IssuePassRequest) (route from to : ℕ) (x : Error) (s : Session)
        → h.uuid.parse req.route_id ≡ some route
        → h.uuid.parse req.from_stop_id ≡ some from
        → h.uuid.parse req.to_stop_id ≡ some to
        → get_route_by_id route s ≡ (err x, tick s)
        → issue_pass h (some claims) (some req) s ≡ (refuse 404 "route not found", tick s)
    unfolding issue_pass parsed
    run_missing claims req route from to x s pr pf pt e =
        rw (issue_pass, pr, pf, pt)
          (run_attempt_err (get_route_by_id route) s (tick s) _ _ {e = x} e)

    abbrev Ended :
        (before : Db) (commuter from to route : ℕ) → Reply IssuePassResponse × Session → Type 0
    Ended before commuter from to route r =
        IsUnchanged h before r
        ⊎ (rt : Route) × (find? (λ (x : Route). x.id == route) before.routes ≡ some rt)
          × Ride before commuter from to route rt r

    issue_found-Ended :
        (commuter from to route : ℕ) (rt : Route) (s : Session)
        → find? (λ (x : Route). x.id == route) s.pool.routes ≡ some rt
        → Ended s.pool commuter from to route (issue_on h commuter from to route rt (tick s))
    issue_found-Ended commuter from to route rt s there =
        elim (issue_on-Answers commuter from to route rt (tick s)) [
          | inl kept ↦ inl kept
          | inr ride ↦ inr (rt, there, ride)
        ]

    -- Whichever calls fail, a request for a pass ends in one of two ways. It is refused and the
    -- committed tables are as before. Or it is answered by 201, and then the route is in the
    -- tables and not an imported one, and its legs have a ride between the two stops. The pass
    -- names the caller, the route, the two stops, the fare of that ride, the time of the request,
    -- the time at which its life ends, and the nonce that was drawn. It is signed, and stored,
    -- alone, under a code that no other pass had; the answer has the signed token, that code, the
    -- end of its life and the fare. Every code that is drawn has a character.
    pub issue_pass-Ride :
        (claims : Claims) (req : IssuePassRequest) (route from to : ℕ) (s : Session)
        → h.uuid.parse req.route_id ≡ some route
        → h.uuid.parse req.from_stop_id ≡ some from
        → h.uuid.parse req.to_stop_id ≡ some to
        → IsUnchanged h s.pool (issue_pass h (some claims) (some req) s)
          ⊎ (rt : Route) × (find? (λ (x : Route). x.id == route) s.pool.routes ≡ some rt)
            × Ride s.pool claims.user_id from to route rt (issue_pass h (some claims) (some req) s)
    unfolding get_route_by_id
    issue_pass-Ride claims req route from to s pr pf pt =
        elim (lookup_cases on_pool (λ d. find? (λ (x : Route). x.id == route) d.routes) s) [
          | inl (rt, there, e) ↦
              subst (Ended s.pool claims.user_id from to route)
                (sym (run_found claims req route from to rt s pr pf pt e))
                (issue_found-Ended claims.user_id from to route rt s there)
          | inr (inl (gone, e)) ↦
              subst (Ended s.pool claims.user_id from to route)
                (sym (run_missing claims req route from to not_found s pr pf pt e))
                (inl (refl, 404, _, refl))
          | inr (inr (down, e)) ↦
              subst (Ended s.pool claims.user_id from to route)
                (sym (run_missing claims req route from to database s pr pf pt e))
                (inl (refl, 404, _, refl))
        ]
