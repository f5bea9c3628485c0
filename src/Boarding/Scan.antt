-- ===== src/Boarding/Scan.antt =====
-- `ScanPass` of backend/internal/boarding/handlers.go. What is outside the program's control is an
-- argument: the codec and the character mapping of the libraries, the configuration, and the
-- readings of the clock. The decoded request is missing if its body is not JSON; the response is
-- an HTTP status, with the body of a success.
mod Reads
pub mod Promise
mod Settling
pub mod Outcome
mod Tests
use sesfikile.Base.{
  ℕ, ◌*◌, ◌^◌, Bool, true, false, not, Option, none, some, ◌==◌, ◌&&◌, ◌||◌, if◌then◌else◌,
}
use sesfikile.Base.Int.{ℤ, negsuc}
use sesfikile.Base.Text.{Text, is_empty}
use sesfikile.Identity.Models.{Driver, VehicleAssignment}
use sesfikile.Identity.Repo.{get_driver_by_user_id, get_active_vehicle_assignment_by_driver_id}
use sesfikile.Boarding.Models.{PassPayload, is_expired, IssuedPass}
use sesfikile.Boarding.Limiter.{Limit, Attempts, allow}
use sesfikile.Boarding.Token.{Codec, Verified, valid, invalid, verify}
use sesfikile.Boarding.PassStore.{lookup_code}
use sesfikile.Wallet.Models.{LedgerTransaction}
use sesfikile.Wallet.Split.{FareSplit}
use sesfikile.Wallet.Repo.{Charged, charge_fare}
use sesfikile.Telemetry.Store.{VehicleState, VehicleStateStore, get, adjust_seats}
use sesfikile.Telemetry.Hub.{Render, Hub, update, to_view, publish}
use sesfikile.Database.Session.{
  Env, Session, Error, insufficient_funds, no_active_driver, Result, ok, err,
}

-- The state that the handler's dependencies keep.
pub record Server : Type 0 where
  pub session : Session
  pub telemetry : VehicleStateStore
  pub hub : Hub
  pub attempts : Attempts

pub record Setup : Type 0 where
  pub codec : Codec
  pub secret : Text
  pub to_upper : ℕ → ℕ
  pub platform_pct : ℤ
  pub driver_pct : ℤ
  pub render : Render

-- The readings of `time.Now()`: for the limiter, the sweep, the expiry and the seats.
pub record Times : Type 0 where
  pub attempt_at : ℕ
  pub sweep_at : ℕ
  pub check_at : ℕ
  pub adjust_at : ℕ

pub record ScanPassRequest : Type 0 where
  pub pass_token : Text
  pub short_code : Text

pub record ScanPassResponse : Type 0 where
  pub transaction_id : Text
  pub fare_cents : ℤ
  pub split : FareSplit
  pub seats_remaining : ℤ
  pub replayed : Bool

pub data Response : Type 0 where
  failed : ℕ → Response
  answered : ℕ → ScanPassResponse → Response

-- `newCodeRateLimiter(time.Minute, 10)`
abbrev pub code_limit : Limit
code_limit = record { window = 60 * 10 ^ 9; max = 10 }

abbrev pub charge_status : Error → ℕ
charge_status insufficient_funds = 402
charge_status no_active_driver = 422
charge_status e = 500

abbrev pub answer : Render → LedgerTransaction → PassPayload → FareSplit → ℤ → Bool → Response
answer render txn payload split seats replayed = answered (if replayed then 200 else 201) (record {
  transaction_id = render.show_uuid txn.id;
  fare_cents = payload.fare_cents;
  split = split;
  seats_remaining = seats;
  replayed = replayed;
})

-- The seat that a fresh charge takes, and the event that tells of it.
unfoldable pub take_seat :
    Render
    → Times
    → PassPayload
    → (vehicle : ℕ) → VehicleState
    → LedgerTransaction
    → FareSplit
    → Server
    → Response × Server
take_seat render times payload vehicle_id state txn split st =
    let (telemetry, changed) = adjust_seats vehicle_id (negsuc 0) times.adjust_at st.telemetry in
    elim changed [
      | none ↦ (
        answer render txn payload split state.seats_available false,
        record st { telemetry = telemetry },
      )
      | some new_state ↦ (
        answer render txn payload split new_state.seats_available false,
        record st {
          telemetry = telemetry;
          hub = publish new_state.route_id (update (to_view render new_state)) st.hub;
        },
      )
    ]

abbrev pub settle :
    Render
    → Times
    → PassPayload
    → ℕ
    → VehicleState
    → Result Charged × Session
    → Server
    → Response × Server
settle render times payload vehicle_id state (err e, s) st =
    (failed (charge_status e), record st { session = s })
settle render times payload vehicle_id state (ok (txn, split, true), s) st =
    (answer render txn payload split state.seats_available true, record st { session = s })
settle render times payload vehicle_id state (ok (txn, split, false), s) st =
    take_seat render times payload vehicle_id state txn split (record st { session = s })

-- `online && state.Online && state.RouteID == payload.RouteID`
abbrev pub rides_route : PassPayload → VehicleState → Bool
rides_route payload state = state.online && state.route_id == payload.route_id

module _ ⦃env : Env⦄ (setup : Setup) (times : Times) where
  unfoldable pub charge_at : PassPayload → (vehicle : ℕ) → VehicleState → Server → Response × Server
  charge_at payload vehicle_id state st =
      settle setup.render times payload vehicle_id state
        (charge_fare payload.commuter_id vehicle_id payload.fare_cents payload.nonce
          setup.platform_pct setup.driver_pct st.session)
        st

  abbrev pub on_route : PassPayload → ℕ → Option VehicleState → Server → Response × Server
  on_route payload vehicle_id none st = (failed 409, st)
  on_route payload vehicle_id (some state) st =
      if rides_route payload state then charge_at payload vehicle_id state st else (failed 409, st)

  abbrev pub with_assignment :
      PassPayload → Result VehicleAssignment × Session → Server → Response × Server
  with_assignment payload (err e, s) st = (failed 409, record st { session = s })
  with_assignment payload (ok assignment, s) st =
      on_route payload assignment.vehicle_id (get assignment.vehicle_id st.telemetry)
        (record st { session = s })

  abbrev pub with_driver : PassPayload → Result Driver × Session → Server → Response × Server
  with_driver payload (err e, s) st = (failed 403, record st { session = s })
  with_driver payload (ok driver, s) st =
      with_assignment payload (get_active_vehicle_assignment_by_driver_id driver.id s) st

  abbrev pub with_payload : ℕ → Verified → Server → Response × Server
  with_payload user_id (invalid e) st = (failed 401, st)
  with_payload user_id (valid payload) st =
      if is_expired payload times.check_at
      then (failed 410, st)
      else with_driver payload (get_driver_by_user_id user_id st.session) st

  abbrev pub with_code : ℕ → Result IssuedPass × Session → Server → Response × Server
  with_code user_id (err e, s) st = (failed 401, record st { session = s })
  with_code user_id (ok issued, s) st =
      with_payload user_id (verify setup.codec setup.secret issued.pass_token)
        (record st { session = s })

  abbrev pub with_attempt : ℕ → Text → Attempts × Bool → Server → Response × Server
  with_attempt user_id short_code (attempts, false) st =
      (failed 429, record st { attempts = attempts })
  with_attempt user_id short_code (attempts, true) st =
      with_code user_id (lookup_code setup.to_upper times.sweep_at short_code st.session)
        (record st { attempts = attempts })

  abbrev pub with_request : ℕ → ScanPassRequest → Server → Response × Server
  with_request user_id req st =
      if is_empty req.pass_token && is_empty req.short_code
      then (failed 400, st)
      else if is_empty req.pass_token
      then with_attempt user_id req.short_code
          (allow code_limit user_id times.attempt_at st.attempts) st
      else with_payload user_id (verify setup.codec setup.secret req.pass_token) st

  -- The user of the request's claims, if it has any, and its decoded body.
  unfoldable pub scan_pass : Option ℕ → Option ScanPassRequest → Server → Response × Server
  scan_pass none body st = (failed 401, st)
  scan_pass (some user_id) none st = (failed 400, st)
  scan_pass (some user_id) (some req) st = with_request user_id req st
