-- ===== src/Stops/Handlers/Matched.antt =====
-- The second part of RequestStop (backend/internal/stops/handlers.go): the match, the alert and
-- the store.
use sesfikile.Base.{
  ℕ, true, false, ◌≡◌, refl, sym, ◌⊎◌, inl, inr, Option, none, some, List, [], ◌∷◌, map, subst,
  Bool-cases, Option-cases, ◌==◌, ==_iff,
}
use sesfikile.Routing.Best.{Any}
use sesfikile.Telemetry.Store.{VehicleState, VehicleStateStore, list_by_route}
use sesfikile.Telemetry.Alerts.{DriverAlertHub, send}
use sesfikile.Stops.Models.{Floats, pending, Request}
use sesfikile.Stops.Match.{
  RouteStop, DriverPosition, Candidate, stop_sequence_index, has_passed, candidate_of, nearer,
  choose_driver, find_approaching_driver,
}
use sesfikile.Base.Text.{Text}
use sesfikile.Http.{Uuid}
use sesfikile.Stops.Handlers.{position_of, alert_of, alert_driver}

module _ (float : Floats) (stops : List RouteStop) (target : RouteStop) where
  -- A driver who has not passed the index, as a candidate.
  abbrev pub Ahead : ℕ → Candidate → DriverPosition → Type 0
  Ahead i c d = (has_passed float stops i d ≡ false) × (candidate_of float target d ≡ c)

  nearer_cases :
      (c : Candidate) (best : Option Candidate)
      → (nearer float c best ≡ c) ⊎ (best ≡ some (nearer float c best))
  nearer_cases c none = inl refl
  nearer_cases c (some b) = elim (Bool-cases (float.less c.distance_meters b.distance_meters)) [
    | inl less ↦ inl (rw less refl)
    | inr more ↦ inr (rw more refl)
  ]

  chosen :
      (i : ℕ) (best : Option Candidate) (drivers : List DriverPosition) (c : Candidate)
      → choose_driver float stops i target best drivers ≡ some c
      → (best ≡ some c) ⊎ Any (Ahead i c) drivers
  unfolding choose_driver
  chosen i best [] c h = inl h
  chosen i best (d ∷ drivers) c h = elim (Bool-cases (has_passed float stops i d)) [
    | inl past ↦ elim (chosen i best drivers c (rw past at h)) [
      | inl b ↦ inl b
      | inr a ↦ inr (inr a)
    ]
    | inr ahead ↦
        elim (chosen i (some (nearer float (candidate_of float target d) best)) drivers c
          (rw ahead at h)) [
            | inl e ↦ elim (nearer_cases (candidate_of float target d) best) [
              | inl new ↦ inr (inl (ahead, cc (new, e)))
              | inr old ↦ inl (cc (old, e))
            ]
            | inr a ↦ inr (inr a)
          ]
  ]

  -- The driver that the match finds is one of those given, and has not passed the target.
  matched-Ahead :
      (drivers : List DriverPosition) (c : Candidate)
      → find_approaching_driver float drivers stops target ≡ some c
      → (i : ℕ) × (stop_sequence_index stops target.stop_id ≡ some i) × Any (Ahead i c) drivers
  unfolding find_approaching_driver
  matched-Ahead drivers c h = elim (Option-cases (stop_sequence_index stops target.stop_id)) [
    | inl off ↦ cc (rw (find_approaching_driver, off) at h)
    | inr (i, on) ↦ elim (chosen i none drivers c (rw (find_approaching_driver, on) at h)) [
      | inl e ↦ cc e
      | inr a ↦ (i, on, a)
    ]
  ]

-- A driver's vehicle state on the route, which the match takes for the candidate.
abbrev pub OnRoute :
    Floats → List RouteStop → RouteStop → (route i : ℕ) → Candidate → VehicleState → Type 0
OnRoute float stops target route i c v =
    (v.route_id ≡ route)
    × (v.driver_id ≡ c.driver_id)
    × (has_passed float stops i (position_of v) ≡ false)

online :
    (float : Floats) (stops : List RouteStop) (target : RouteStop) (route i : ℕ) (c : Candidate)
    (telemetry : VehicleStateStore)
    → Any (Ahead float stops target i c) (map position_of (list_by_route route telemetry))
    → Any (λ (kv : ℕ × VehicleState). OnRoute float stops target route i c kv.1) telemetry
unfolding list_by_route
online float stops target route i c [] a = a
online float stops target route i c ((k, v) ∷ rest) a = elim (Bool-cases (v.route_id == route)) [
  | inl here ↦ elim (rw here at a) [
    | inl (ahead, e) ↦ inl ((==_iff _ _).0 here, cc e, ahead)
    | inr a' ↦ inr (online float stops target route i c rest a')
  ]
  | inr away ↦ inr (online float stops target route i c rest (rw away at a))
]

module _ (uuid : Uuid) (rfc3339 : ℕ → Text) (float : Floats) (telemetry : VehicleStateStore)
    (stops : List RouteStop) (target : RouteStop) (new : Request) (alerts : DriverAlertHub) where
  abbrev pub found : Option Candidate
  found =
      find_approaching_driver float (map position_of (list_by_route new.route_id telemetry)) stops
        target

  -- The alert was taken by a mailbox of a driver on the route who has not passed the stop.
  abbrev pub Told : Request → DriverAlertHub → Type 0
  Told r alerts' =
      (c : Candidate) × (i : ℕ) × (stop_sequence_index stops target.stop_id ≡ some i)
      × Any (λ (kv : ℕ × VehicleState). OnRoute float stops target new.route_id i c kv.1) telemetry
      × (send c.driver_id (alert_of uuid rfc3339 new) alerts ≡ (alerts', true))
      × (r ≡ record new { status = pending; matched_driver_id = some c.driver_id })

  -- Nobody was found, or no mailbox of the driver took the alert.
  abbrev pub Untold : Request → DriverAlertHub → Type 0
  Untold r alerts' =
      (r ≡ new)
      × (((found ≡ none) × (alerts' ≡ alerts))
          ⊎ ((c : Candidate) × (found ≡ some c)
              × (send c.driver_id (alert_of uuid rfc3339 new) alerts ≡ (alerts', false))))

  abbrev pub IsAlerted : Request × DriverAlertHub → Type 0
  IsAlerted (r, alerts') = Told r alerts' ⊎ Untold r alerts'

  abbrev pub swap : DriverAlertHub × Request → Request × DriverAlertHub
  swap (a, r) = (r, a)

  pub alert_driver-IsAlerted : IsAlerted (swap (alert_driver uuid rfc3339 new found alerts))
  alert_driver-IsAlerted = elim (Option-cases found) [
    | inl e ↦
        subst (λ f. IsAlerted (swap (alert_driver uuid rfc3339 new f alerts))) (sym e)
          (inr (refl, inl (e, refl)))
    | inr (c, e) ↦
        subst (λ f. IsAlerted (swap (alert_driver uuid rfc3339 new f alerts))) (sym e)
          (elim (Bool-cases (send c.driver_id (alert_of uuid rfc3339 new) alerts).1) [
            | inl took ↦
                let (i, on, a) = matched-Ahead float stops target _ c e in
                inl (
                  c,
                  i,
                  on,
                  online float stops target new.route_id i c telemetry a,
                  cc took,
                  rw took refl,
                )
            | inr full ↦ inr (rw full refl, inr (c, e, cc full))
          ])
  ]
