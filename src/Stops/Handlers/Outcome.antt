-- ===== src/Stops/Handlers/Outcome.antt =====
-- What POST /stops/request (backend/internal/stops/handlers.go) has checked, told and stored.
use sesfikile.Base.{ℕ, ◌≡◌, ◌≢◌, ◌⊎◌, some}
use sesfikile.Base.Text.{Text}
use sesfikile.Base.Dict.{lookup}
use sesfikile.Telemetry.Store.{VehicleStateStore}
use sesfikile.Telemetry.Alerts.{DriverAlertHub}
use sesfikile.Stops.Models.{Floats, Request}
use sesfikile.Stops.Store.{Store}
use sesfikile.Stops.Handlers.{RequestStopResponse, Prepared, respond}
use sesfikile.Stops.Handlers.Matched.{Told, Untold, IsAlerted}
use sesfikile.Database.Schema.{Db}
use sesfikile.Database.Session.{Env, Session}
use sesfikile.Http.{Reply, reply, refuse, Uuid}
use sesfikile.Http.Yields.{Yields}
use sesfikile.Stops.Handlers.Checks.{IsPrepared}

module _ ⦃env : Env⦄ where
  -- What a request leaves: a refusal changes nothing.
  abbrev pub Outcome :
      (uuid : Uuid)
      → (rfc3339 : ℕ → Text) → Floats
      → VehicleStateStore
      → (id now commuter route stop : ℕ) → Db
      → DriverAlertHub × Store
      → (Reply RequestStopResponse × Session) × (DriverAlertHub × Store)
      → Type 0
  Outcome uuid rfc3339 float telemetry id now commuter route stop before w
        ((refuse n message, s), w') =
      w' ≡ w
  Outcome uuid rfc3339 float telemetry id now commuter route stop before (alerts, store)
        ((reply n b, s), (alerts', store')) =
      (p : Prepared) × (r : Request) × IsPrepared id now commuter route stop before p s
      × (lookup id store' ≡ some r)
      × ((k : ℕ) → id ≢ k → lookup k store' ≡ lookup k store)
      × ((reply n b) ≡ respond uuid r r.status)
      × (((n ≡ 201)
            × Told uuid rfc3339 float telemetry p.route_stops p.target_stop p.request alerts r
                alerts')
          ⊎ ((n ≡ 200)
              × Untold uuid rfc3339 float telemetry p.route_stops p.target_stop p.request alerts r
                  alerts'))

  module _ (uuid : Uuid) (rfc3339 : ℕ → Text) (float : Floats) (telemetry : VehicleStateStore)
      (id now commuter route stop : ℕ) (before : Db) (alerts : DriverAlertHub) (store : Store) where
    abbrev Ends : (Reply RequestStopResponse × Session) × (DriverAlertHub × Store) → Type 0
    Ends = Outcome uuid rfc3339 float telemetry id now commuter route stop before (alerts, store)

    module _ (p : Prepared) (s : Session)
        (good : IsPrepared id now commuter route stop before p s) where
      abbrev Alerted : Request → DriverAlertHub → Type 0
      Alerted r alerts' =
          IsAlerted uuid rfc3339 float telemetry p.route_stops p.target_stop p.request alerts
            (r, alerts')
