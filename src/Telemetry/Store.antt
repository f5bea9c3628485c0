-- ===== src/Telemetry/Store.antt =====
-- `VehicleStateStore` of backend/internal/telemetry/store.go. Each method holds the lock for its
-- whole body, so it is one step; `time.Now()` is an argument. A float64 is stored and copied only,
-- so it stands as its 64 bits, with 0 for the zero value. An `int` is an int64.
pub mod Invariant
use sesfikile.Base.{ℕ, Bool, true, false, Option, none, some, List, [], ◌∷◌, ◌==◌, if◌then◌else◌}
use sesfikile.Base.Int.{ℤ, pos, ◌+ℤ◌, ltb_ℤ}
use sesfikile.Base.Word.{i64}
use sesfikile.Base.Dict.{Dict, lookup, insert, erase}

pub record VehicleState : Type 0 where
  pub vehicle_id : ℕ
  pub route_id : ℕ
  pub driver_id : ℕ
  pub lat : ℕ
  pub lng : ℕ
  pub seats_total : ℤ
  pub seats_available : ℤ
  pub online : Bool
  pub last_updated : ℕ

abbrev pub VehicleStateStore : Type 0
VehicleStateStore = Dict VehicleState

unfoldable pub clamp : ℤ → ℤ → ℤ → ℤ
clamp v min max = if ltb_ℤ v min then min else if ltb_ℤ max v then max else v

-- The seats of a vehicle that comes online: kept from before, if it is tracked.
abbrev pub seats_at_start : Option VehicleState → ℤ → ℤ
seats_at_start none seats_total = seats_total
seats_at_start (some existing) seats_total = clamp existing.seats_available (pos 0) seats_total

abbrev pub place : Option VehicleState → ℕ × ℕ
place none = (0, 0)
place (some existing) = (existing.lat, existing.lng)

unfoldable pub go_online :
    (vehicle route driver : ℕ) → ℤ → ℕ → VehicleStateStore → VehicleStateStore × VehicleState
go_online vehicle_id route_id driver_id seats_total now s =
    let existing = lookup vehicle_id s in
    let state : VehicleState = record {
      vehicle_id = vehicle_id;
      route_id = route_id;
      driver_id = driver_id;
      lat = (place existing).0;
      lng = (place existing).1;
      seats_total = seats_total;
      seats_available = seats_at_start existing seats_total;
      online = true;
      last_updated = now;
    } in
    (insert vehicle_id state s, state)

unfoldable pub go_offline : ℕ → VehicleStateStore → VehicleStateStore × Option VehicleState
go_offline vehicle_id s = elim (lookup vehicle_id s) [
  | none ↦ (s, none)
  | some state ↦ (erase vehicle_id s, some (record state { online = false }))
]

-- `if !ok { return …, false }`, and the write of the new state.
abbrev pub change :
    ℕ → (VehicleState → VehicleState) → VehicleStateStore → VehicleStateStore × Option VehicleState
change vehicle_id f s = elim (lookup vehicle_id s) [
  | none ↦ (s, none)
  | some state ↦ (insert vehicle_id (f state) s, some (f state))
]

unfoldable pub update_position :
    ℕ → (lat lng now : ℕ) → VehicleStateStore → VehicleStateStore × Option VehicleState
update_position vehicle_id lat lng now =
    change vehicle_id (λ state. record state { lat = lat; lng = lng; last_updated = now })

unfoldable pub adjust_seats :
    ℕ → ℤ → ℕ → VehicleStateStore → VehicleStateStore × Option VehicleState
adjust_seats vehicle_id delta now = change vehicle_id (λ state. record state {
  seats_available = clamp (i64 (state.seats_available +ℤ delta)) (pos 0) state.seats_total;
  last_updated = now;
})

unfoldable pub set_seats_absolute :
    ℕ → ℤ → ℕ → VehicleStateStore → VehicleStateStore × Option VehicleState
set_seats_absolute vehicle_id seats now = change vehicle_id (λ state. record state {
  seats_available = clamp seats (pos 0) state.seats_total;
  last_updated = now;
})

unfoldable pub get : ℕ → VehicleStateStore → Option VehicleState
get vehicle_id s = lookup vehicle_id s

-- The order of Go's map iteration is that of the entries.
unfoldable pub list_by_route : ℕ → VehicleStateStore → List VehicleState
list_by_route route_id [] = []
list_by_route route_id ((_, state) ∷ s) =
    if state.route_id == route_id
    then state ∷ list_by_route route_id s
    else list_by_route route_id s
