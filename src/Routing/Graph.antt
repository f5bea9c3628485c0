-- ===== src/Routing/Graph.antt =====
-- backend/internal/routing/graph.go. A Go map from stops to positions is a `Dict`; an `int`
-- position is a number, since it counts a list; a sum of fares wraps as an int64 does.
pub mod Positions
pub mod Rides
pub mod Interchange
pub mod Search
use sesfikile.Base.{
  ℕ, zero, suc, ◌+◌, ◌-◌, Bool, true, Option, none, some, List, [], ◌∷◌, map, take, drop, leb, ◌==◌,
  if◌then◌else◌,
}
use sesfikile.Base.Int.{ℤ, pos, ◌+ℤ◌, ltb_ℤ}
use sesfikile.Base.Word.{i64}
use sesfikile.Base.Text.{Text, bytes}
use sesfikile.Base.Dict.{Dict, lookup, insert}
use sesfikile.Routing.Models.{Route, RouteLeg, RouteWithLegs}

pub record Segment : Type 0 where
  pub route_id : ℕ
  pub route_name : Text
  pub legs : List RouteLeg
  pub fare_cents : ℤ

pub record SearchResult : Type 0 where
  pub transfers : ℕ
  pub total_fare_cents : ℤ
  pub segments : List Segment

unfoldable pub stops_of : List RouteLeg → List ℕ
stops_of [] = []
stops_of (l ∷ legs) = l.from_stop_id ∷ map (λ (x : RouteLeg). x.to_stop_id) (l ∷ legs)

-- `for i, s := range stops { position[s] = i }`, from the index `i` on.
unfoldable pub index_from : ℕ → List ℕ → Dict ℕ → Dict ℕ
index_from i [] position = position
index_from i (s ∷ stops) position = index_from (suc i) stops (insert s i position)

unfoldable pub route_stop_order : List RouteLeg → List ℕ × Dict ℕ
route_stop_order legs = (stops_of legs, index_from 0 (stops_of legs) [])

-- `for _, l := range legs { fare += l.FareCents }`
unfoldable pub add_fares : ℤ → List RouteLeg → ℤ
add_fares fare [] = fare
add_fares fare (l ∷ legs) = add_fares (i64 (fare +ℤ l.fare_cents)) legs

abbrev pub ride : RouteWithLegs → ℕ → ℕ → Segment
ride r i j =
    let legs = take (j - i) (drop i r.legs) in
    record {
      route_id = r.route.id;
      route_name = r.route.name;
      legs = legs;
      fare_cents = add_fares (pos 0) legs;
    }

-- The ride between two positions, which a stop off the route does not have.
abbrev pub ride_between : RouteWithLegs → Option ℕ → Option ℕ → Option Segment
ride_between r none to = none
ride_between r (some i) none = none
ride_between r (some i) (some j) = if leb j i then none else some (ride r i j)

unfoldable pub direct_segment : RouteWithLegs → (origin dest : ℕ) → Option Segment
direct_segment r origin dest =
    let position = (route_stop_order r.legs).1 in
    ride_between r (lookup origin position) (lookup dest position)

-- `RouteWithLegs{Legs: legs}`
abbrev pub bare_route : List RouteLeg → RouteWithLegs
bare_route legs = record {
  route = record { id = 0; name = []; association_name = []; source = []; created_at = 0 };
  legs = legs;
}

unfoldable pub fare_for_segment : List RouteLeg → (from_stop to_stop : ℕ) → Option ℤ
fare_for_segment legs from_stop_id to_stop_id =
    elim (direct_segment (bare_route legs) from_stop_id to_stop_id) [
      | none ↦ none
      | some seg ↦ some seg.fare_cents
    ]

-- A `for … range` loop that updates one variable.
unfoldable pub for_each {ℓ κ} : {A : Type ℓ} {B : Type κ} → (A → B → B) → List A → B → B
for_each f [] b = b
for_each f (x ∷ xs) b = for_each f xs (f x b)

-- `if best == nil || c < best { best = c }`, for a candidate that may be missing.
unfoldable pub offer {ℓ} : {C : Type ℓ} → (C → ℤ) → Option C → Option C → Option C
offer cost none best = best
offer cost (some c) none = some c
offer cost (some c) (some b) = if ltb_ℤ (cost c) (cost b) then some c else some b

abbrev pub segment_cost : Segment → ℤ
segment_cost s = s.fare_cents

abbrev pub result_cost : SearchResult → ℤ
result_cost r = r.total_fare_cents

abbrev pub direct_result : Segment → SearchResult
direct_result s = record { transfers = 0; total_fare_cents = s.fare_cents; segments = s ∷ [] }

abbrev pub transfer_result : Segment → Segment → SearchResult
transfer_result s t = record {
  transfers = 1;
  total_fare_cents = i64 (s.fare_cents +ℤ t.fare_cents);
  segments = s ∷ t ∷ [];
}

-- `!ok || p <= at`: the loop skips an interchange that does not lie behind `at` on the first route.
abbrev pub not_behind : Option ℕ → ℕ → Bool
not_behind none at = true
not_behind (some p) at = leb p at

-- `!ok || p >= at`
abbrev pub not_before : Option ℕ → ℕ → Bool
not_before none at = true
not_before (some p) at = leb at p

abbrev pub join : Option Segment → Option Segment → Option SearchResult
join none t = none
join (some s) none = none
join (some s) (some t) = some (transfer_result s t)

-- The result that one interchange offers, behind the loop's guards.
unfoldable pub via :
    (r1 r2 : RouteWithLegs) (origin dest origin_pos dest_pos : ℕ) → ℕ → Option SearchResult
via r1 r2 origin dest origin_pos dest_pos interchange =
    if not_behind (lookup interchange (route_stop_order r1.legs).1) origin_pos
    then none
    else if not_before (lookup interchange (route_stop_order r2.legs).1) dest_pos
    then none
    else join (direct_segment r1 origin interchange) (direct_segment r2 interchange dest)

abbrev pub try_stops :
    (r1 r2 : RouteWithLegs) (origin dest origin_pos : ℕ)
    → Option ℕ
    → Option SearchResult
    → Option SearchResult
try_stops r1 r2 origin dest origin_pos none best = best
try_stops r1 r2 origin dest origin_pos (some dest_pos) best =
    for_each (λ i b. offer result_cost (via r1 r2 origin dest origin_pos dest_pos i) b)
      (route_stop_order r1.legs).0 best

unfoldable pub try_second :
    (r1 : RouteWithLegs) (origin dest origin_pos : ℕ)
    → RouteWithLegs
    → Option SearchResult
    → Option SearchResult
try_second r1 origin dest origin_pos r2 best =
    if r2.route.id == r1.route.id
    then best
    else try_stops r1 r2 origin dest origin_pos (lookup dest (route_stop_order r2.legs).1) best

abbrev pub try_seconds :
    List RouteWithLegs
    → RouteWithLegs
    → (origin dest : ℕ) → Option ℕ
    → Option SearchResult
    → Option SearchResult
try_seconds routes r1 origin dest none best = best
try_seconds routes r1 origin dest (some origin_pos) best =
    for_each (try_second r1 origin dest origin_pos) routes best

unfoldable pub try_first :
    List RouteWithLegs
    → (origin dest : ℕ) → RouteWithLegs
    → Option SearchResult
    → Option SearchResult
try_first routes origin dest r1 best =
    try_seconds routes r1 origin dest (lookup origin (route_stop_order r1.legs).1) best

unfoldable pub best_direct : List RouteWithLegs → (origin dest : ℕ) → Option Segment
best_direct routes origin dest =
    for_each (λ r best. offer segment_cost (direct_segment r origin dest) best) routes none

unfoldable pub best_transfer : List RouteWithLegs → (origin dest : ℕ) → Option SearchResult
best_transfer routes origin dest = for_each (try_first routes origin dest) routes none

unfoldable pub search : List RouteWithLegs → (origin dest : ℕ) → Option SearchResult
search routes origin dest = if origin == dest then none else elim (best_direct routes origin dest) [
  | none ↦ best_transfer routes origin dest
  | some s ↦ some (direct_result s)
]
