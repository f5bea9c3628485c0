-- ===== src/Boarding/Scan/Promise.antt =====
-- The words in which a scan is described (backend/internal/boarding/handlers.go): what it has read
-- and done when it answers, and the reasons for which it does not.
use sesfikile.Base.{ℕ, Bool, true, false, ◌≡◌, ◌⊎◌, Option, none, some}
use sesfikile.Base.Int.{ℤ, negsuc, ◌+ℤ◌}
use sesfikile.Base.Word.{i64}
use sesfikile.Base.Dict.{insert}
use sesfikile.Base.Text.{Text, is_empty}
use sesfikile.Identity.Models.{Driver, VehicleAssignment}
use sesfikile.Identity.Repo.{get_driver_by_user_id, get_active_vehicle_assignment_by_driver_id}
use sesfikile.Boarding.Models.{PassPayload, is_expired, IssuedPass}
use sesfikile.Boarding.Limiter.{Attempts, allow}
use sesfikile.Boarding.Token.{TokenError, valid, invalid, verify}
use sesfikile.Boarding.PassStore.{lookup_code}
use sesfikile.Boarding.Scan.Reads.{LedgerKept}
use sesfikile.Boarding.Scan.{
  Server, Setup, Times, ScanPassRequest, ScanPassResponse, Response, failed, answered, code_limit,
  rides_route,
}
use sesfikile.Wallet.Models.{LedgerTransaction}
use sesfikile.Wallet.Split.{FareSplit}
use sesfikile.Wallet.Repo.{Charged, charge_fare}
use sesfikile.Telemetry.Store.{VehicleState, get}
use sesfikile.Telemetry.Store.Invariant.{IsKept}
use sesfikile.Telemetry.Hub.{update, to_view, publish}
use sesfikile.Database.Session.{
  Env, Session, Error, insufficient_funds, no_active_driver, Result, ok, err,
}

-- The status of a charge that failed, by its error.
abbrev pub ChargeStatus : Error → ℕ → Type 0
ChargeStatus insufficient_funds status = status ≡ 402
ChargeStatus no_active_driver status = status ≡ 422
ChargeStatus e status = status ≡ 500

module _ ⦃env : Env⦄ (setup : Setup) (times : Times) (user : ℕ) (req : ScanPassRequest)
    (st : Server) where
  -- The token of the request, or the one that is stored under its code, for a driver who may try
  -- one more; and the server when it has been read.
  abbrev pub Presented : Text → Server → Type 0
  Presented token st₁ =
      ((is_empty req.pass_token ≡ false) × (token ≡ req.pass_token) × (st₁ ≡ st))
      ⊎ ((is_empty req.pass_token ≡ true)
          × (is_empty req.short_code ≡ false)
          × ((attempts : Attempts) × (issued : IssuedPass) × (s : Session) × (allow code_limit user
                  times.attempt_at st.attempts
                ≡ (attempts, true))
              × (lookup_code setup.to_upper times.sweep_at req.short_code st.session
                  ≡ (ok issued, s))
              × (token ≡ issued.pass_token)
              × (st₁ ≡ record st { attempts = attempts; session = s })))

  -- A pass that was signed under the secret and has not expired.
  pub record Checked : Type 0 where
    pub token : Text
    pub read : Server
    pub presented : Presented token read
    pub payload : PassPayload
    pub authentic : verify setup.codec setup.secret token ≡ valid payload
    pub in_time : is_expired payload times.check_at ≡ false

  -- The vehicle that the user drives, by the driver profile and its active assignment; and the
  -- session when both are read.
  pub record Driving (c : Checked) : Type 0 where
    pub driver : Driver
    pub found_at : Session
    pub found : get_driver_by_user_id user c.read.session ≡ (ok driver, found_at)
    pub assignment : VehicleAssignment
    pub before : Session
    pub assigned :
        get_active_vehicle_assignment_by_driver_id driver.id found_at ≡ (ok assignment, before)

  -- That vehicle is online on the pass's route.
  pub record Riding (c : Checked) : Type 0 where
    pub driving : Driving c
    pub state : VehicleState
    pub tracked : get driving.assignment.vehicle_id st.telemetry ≡ some state
    pub riding : rides_route c.payload state ≡ true

  -- The one charge: of the pass's fare, to the pass's commuter, under the pass's nonce.
  abbrev pub charge_of : (c : Checked) → Riding c → Result Charged × Session
  charge_of c r =
      charge_fare c.payload.commuter_id r.driving.assignment.vehicle_id c.payload.fare_cents
        c.payload.nonce setup.platform_pct setup.driver_pct r.driving.before

  -- What a fresh charge does: the vehicle has a seat less, by an int64's wrap-around and kept within
  -- its bounds, and its route is told.
  pub record SeatTaken (vehicle : ℕ) (state : VehicleState) (seats : ℤ) (st' : Server)
      : Type 0 where
    pub now : VehicleState
    pub same : now ≡ record state { seats_available = seats; last_updated = times.adjust_at }
    pub fewer : IsKept (i64 (state.seats_available +ℤ negsuc 0)) state.seats_total seats
    pub stored : st'.telemetry ≡ insert vehicle now st.telemetry
    pub told : st'.hub ≡ publish state.route_id (update (to_view setup.render now)) st.hub

  -- A charge with its answer's status: 200 for a replay, which takes no seat, else 201.
  abbrev pub Seats : (vehicle : ℕ) → VehicleState → (status : ℕ) → ℤ → Server → Bool → Type 0
  Seats vehicle state status seats st' true =
      (status ≡ 200)
      × (st'.telemetry ≡ st.telemetry)
      × (st'.hub ≡ st.hub)
      × (seats ≡ state.seats_available)
  Seats vehicle state status seats st' false = (status ≡ 201) × SeatTaken vehicle state seats st'

  -- An answer: the charge went through, and it is what the answer says.
  pub record Boarded (status : ℕ) (r : ScanPassResponse) (st' : Server) : Type 0 where
    pub checked : Checked
    pub ride : Riding checked
    pub txn : LedgerTransaction
    pub split : FareSplit
    pub replayed : Bool
    pub seats : ℤ
    pub charged : charge_of checked ride ≡ (ok (txn, split, replayed), st'.session)
    pub reported : r ≡ record {
      transaction_id = setup.render.show_uuid txn.id;
      fare_cents = checked.payload.fare_cents;
      split = split;
      seats_remaining = seats;
      replayed = replayed;
    }
    pub seated : Seats ride.driving.assignment.vehicle_id ride.state status seats st' replayed

  -- No token is reached: 400 without one or a code, 429 for a driver who has tried too often, 401
  -- for a code whose lookup fails.
  abbrev pub Unread : ℕ → Type 0
  Unread status =
      ((is_empty req.pass_token ≡ true) × (is_empty req.short_code ≡ true) × (status ≡ 400))
      ⊎ ((is_empty req.pass_token ≡ true)
          × ((attempts : Attempts) × (allow code_limit user times.attempt_at st.attempts
                ≡ (attempts, false)))
          × (status ≡ 429))
      ⊎ ((is_empty req.pass_token ≡ true)
          × ((e : Error) × ((lookup_code setup.to_upper times.sweep_at req.short_code st.session).0
                ≡ err e))
          × (status ≡ 401))

  -- The token is not one of the server's, 401, or its pass has expired, 410.
  abbrev pub Unchecked : ℕ → Type 0
  Unchecked status =
      (token : Text) × (read : Server) × Presented token read
      × (((x : TokenError) × (verify setup.codec setup.secret token ≡ invalid x) × (status ≡ 401))
          ⊎ ((p : PassPayload) × (verify setup.codec setup.secret token ≡ valid p)
              × (is_expired p times.check_at ≡ true)
              × (status ≡ 410)))

  -- The lookup of the user's driver profile fails, 403, or that of its active assignment, 409, or
  -- the vehicle is not online on the pass's route, 409.
  abbrev pub Unassigned : Checked → ℕ → Type 0
  Unassigned c status =
      ((e : Error) × ((get_driver_by_user_id user c.read.session).0 ≡ err e) × (status ≡ 403))
      ⊎ ((driver : Driver) × (s : Session) × (get_driver_by_user_id user c.read.session
            ≡ (ok driver, s))
          × ((e : Error) × ((get_active_vehicle_assignment_by_driver_id driver.id s).0 ≡ err e))
          × (status ≡ 409))
      ⊎ ((d : Driving c) × ((get d.assignment.vehicle_id st.telemetry ≡ none)
            ⊎ ((state : VehicleState) × (get d.assignment.vehicle_id st.telemetry ≡ some state)
                × (rides_route c.payload state ≡ false)))
          × (status ≡ 409))

  -- The charge failed: 402, 422 or 500 by its error, with the tables that it has left.
  abbrev pub Uncharged : (c : Checked) → ℕ → Server → Type 0
  Uncharged c status st' =
      (r : Riding c) × (e : Error) × (charge_of c r ≡ (err e, st'.session)) × ChargeStatus e status

  abbrev pub Refused : ℕ → Server → Type 0
  Refused status st' =
      (st'.telemetry ≡ st.telemetry)
      × (st'.hub ≡ st.hub)
      × ((LedgerKept st.session st'.session
            × (Unread status ⊎ Unchecked status ⊎ ((c : Checked) × Unassigned c status)))
          ⊎ ((c : Checked) × Uncharged c status st'))

  abbrev pub Ended : Response × Server → Type 0
  Ended (failed status, st') = Refused status st'
  Ended (answered status r, st') = Boarded status r st'

-- Without claims or a body, nothing is read.
abbrev pub ScanOutcome :
    ⦃env : Env⦄
    → Setup
    → Times
    → Option ℕ
    → Option ScanPassRequest
    → Server
    → Response × Server
    → Type 0
ScanOutcome setup times none body st r = r ≡ (failed 401, st)
ScanOutcome setup times (some user) none st r = r ≡ (failed 400, st)
ScanOutcome setup times (some user) (some req) st r = Ended setup times user req st r
