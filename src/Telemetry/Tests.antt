-- ===== src/Telemetry/Tests.antt =====
-- Runs of the vehicle store and of a hub with one commuter (backend/internal/telemetry).
use sesfikile.Base.{
  map, ltb, length, ◌++◌, ℕ, true, ◌≡◌, refl, none, some, List, [], ◌∷◌, arith, ◌==◌, if◌then◌else◌,
}
use sesfikile.Base.Int.{ℤ, pos, negsuc}
use sesfikile.Base.Dict.{lookup}
use sesfikile.Telemetry.Store.{VehicleState, VehicleStateStore, go_online, go_offline, get}
use sesfikile.Telemetry.Store.Invariant.{
  Call, online, seats_delta, seats_absolute, IsValid, run, apply, run-IsValid, apply-get_ne, IsKept,
  reconnect, empty-IsValid,
}
use sesfikile.Telemetry.Mailbox.{Subscriber, Subs, members, deliver}
use sesfikile.Telemetry.Mailbox.Laws.{deliver-members}

abbrev day : List Call
day = online 1 4 9 (pos 15) 100 ∷ seats_delta 1 (negsuc 0) 101 ∷ seats_absolute 1 (pos 99) 102 ∷ []

run-IsValid_example : IsValid (run day [])
run-IsValid_example = run-IsValid day [] (omega arith, (tt, (tt, tt))) empty-IsValid

abbrev taxi : VehicleState
taxi = record {
  vehicle_id = 1;
  route_id = 4;
  driver_id = 9;
  lat = 33;
  lng = 18;
  seats_total = pos 15;
  seats_available = pos 6;
  online = true;
  last_updated = 90;
}

abbrev rank : VehicleStateStore
rank = (1, taxi) ∷ []

apply-get_ne_example : get 1 (apply (seats_delta 2 (negsuc 0) 101) rank) ≡ get 1 rank
apply-get_ne_example = apply-get_ne (seats_delta 2 (negsuc 0) 101) 1 rank (λ e. omega (arith, e))

reconnect_example :
    ((r : ℤ) × IsKept (pos 6) (pos 4) r
      × ((go_online 1 5 9 (pos 4) 120 rank).1 ≡ record {
        vehicle_id = 1;
        route_id = 5;
        driver_id = 9;
        lat = 33;
        lng = 18;
        seats_total = pos 4;
        seats_available = r;
        online = true;
        last_updated = 120;
      })
      × (get 1 (go_online 1 5 9 (pos 4) 120 rank).0 ≡ some (go_online 1 5 9 (pos 4) 120 rank).1))
    × (get 1 (go_offline 1 rank).0 ≡ none)
unfolding get lookup
reconnect_example = reconnect 1 5 9 (pos 4) 120 taxi rank refl

-- One mailbox with one message, and a buffer of one: a second message is dropped.
abbrev riders : Subs ℕ
riders = (4, record { pointer = 7; key = 4; ch = 1 ∷ [] } ∷ []) ∷ []

deliver-members_example : members 4 (deliver 1 4 2 riders) ≡ (
    if 4 == 4
    then map
        (λ (x : Subscriber ℕ). record {
          pointer = x.pointer;
          key = x.key;
          ch = if ltb (length x.ch) 1 then x.ch ++ 2 ∷ [] else x.ch;
        })
        (members 4 riders)
    else members 4 riders)
deliver-members_example = deliver-members 1 4 2 riders 4
