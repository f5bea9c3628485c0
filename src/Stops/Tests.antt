-- ===== src/Stops/Tests.antt =====
-- A match of two drivers on one route, and a request that is acknowledged twice
-- (backend/internal/stops).
use sesfikile.Base.{ℕ, ◌+◌, true, ◌≡◌, ◌≢◌, refl, none, some, List, [], ◌∷◌, ltb, arith}
use sesfikile.Base.Text.{bytes}
use sesfikile.Base.Dict.{lookup}
use sesfikile.Stops.Models.{Floats, Request, pending, acknowledged}
use sesfikile.Stops.Match.{RouteStop, DriverPosition, stop_sequence_index, find_approaching_driver}
use sesfikile.Stops.Match.Nearest.{IsOrder, Matches, find_approaching_driver-Matches}
use sesfikile.Stops.Store.{Store, get, acknowledge}
use sesfikile.Stops.Store.Lifecycle.{IsAcked, acknowledge_twice}

-- Numbers in place of floats, with sums for distances.
abbrev numbers : Floats
numbers = record {
  add = λ a b. a + b;
  sub = λ a b. a + b;
  mul = λ a b. a;
  div = λ a b. a;
  sin = λ a. a;
  cos = λ a. a;
  sqrt = λ a. a;
  atan2 = λ a b. a;
  less = ltb;
  one = 1;
  two = 2;
  rad = 1;
  earth_radius_meters = 6371000;
  max_float = 1000000;
}

numbers-IsOrder : IsOrder (λ n. true) numbers.less
numbers-IsOrder = record {
  irreflexive = λ a. ground arith;
  asymmetric = λ a b h. ground arith;
  transitive = λ a b c x y z h k. ground arith;
}

abbrev route_stops : List RouteStop
route_stops =
    record { stop_id = 1; lat = 0; lng = 0 } ∷ record { stop_id = 2; lat = 5; lng = 0 } ∷ []

abbrev taxis : List DriverPosition
taxis =
    record { driver_id = 8; vehicle_id = 80; lat = 1; lng = 0 }
    ∷ record { driver_id = 9; vehicle_id = 90; lat = 3; lng = 0 }
    ∷ []

abbrev second_stop : RouteStop
second_stop = record { stop_id = 2; lat = 5; lng = 0 }

find_approaching_driver-Matches_example :
    Matches numbers
      (λ n. true)
      route_stops
      second_stop
      taxis
      (stop_sequence_index route_stops 2)
      (find_approaching_driver numbers taxis route_stops second_stop)
find_approaching_driver-Matches_example =
    find_approaching_driver-Matches numbers (λ n. true) route_stops second_stop taxis
      numbers-IsOrder (refl, (refl, tt))

abbrev waiting : Request
waiting = record {
  id = 3;
  commuter_id = 7;
  route_id = 4;
  stop_id = 2;
  stop_name = bytes "Main";
  requested_at = 50;
  status = pending;
  matched_driver_id = some 9;
  acked_at = none;
}

abbrev requests : Store
requests = (3, waiting) ∷ []

acknowledge_twice_example :
    (acked : Request) × ((acknowledge 3 60 requests).1 ≡ some acked)
    × (get 3 (acknowledge 3 60 requests).0 ≡ some acked)
    × (acked.status ≡ acknowledged)
    × IsAcked 60 waiting acked
    × (acknowledge 3 70 (acknowledge 3 60 requests).0 ≡ ((acknowledge 3 60 requests).0, some acked))
    × ((k : ℕ) → 3 ≢ k → get k (acknowledge 3 60 requests).0 ≡ get k requests)
unfolding get lookup
acknowledge_twice_example = acknowledge_twice 3 60 70 requests waiting refl
