-- ===== src/Routing/Repo/Tests.antt =====
-- Runs on a small town: a seeded route of two legs, and an imported one (backend/cmd/seed,
-- backend/cmd/importcatalogue).
use mathlib.Core.List.{Perm}
use sesfikile.Base.{
  ℕ, true, false, none, some, List, [], ◌∷◌, map, any, length, get_elem?, ◌==◌, ◌≡◌, refl, ap, ◌<◌,
  ◌≤◌, ◌-◌, ◌/◌, ◌*◌, ◌⊎◌, if◌then◌else◌, arith, All,
}
use sesfikile.Base.Int.{pos}
use sesfikile.Base.Text.{Text, bytes}
use sesfikile.Base.Sort.{IsOrdered}
use sesfikile.Routing.Models.{
  Stop, Route, RouteLeg, RouteWithLegs, RouteGeometry, Polyline, source_seed, source_catalogue,
}
use sesfikile.Routing.Repo.{route_by_name, all_routes_with_legs}
use sesfikile.Routing.Repo.Order.{IsLoaded, Down, all_routes_with_legs-Ensures}
use sesfikile.Routing.Geometry.{PolylineJson, IsFaithful, create_route_geometry, get_route_geometry}
use sesfikile.Routing.Geometry.RoundTrip.{get_route_geometry-create_route_geometry}
use sesfikile.Routing.Clearing.{delete_catalogue_data}
use sesfikile.Routing.Clearing.Baseline.{baseline, has_catalogue_pass}
use sesfikile.Routing.Clearing.Outcome.{Refused, deleted_of, delete_catalogue_data-Ensures}
use sesfikile.Routing.Clearing.Again.{none_deleted, delete_catalogue_data_again}
use sesfikile.Routing.Decimate.{Scaling, decimate_points}
use sesfikile.Routing.Decimate.Bounds.{reach, IsPoint, decimate_points_lem}
use sesfikile.Database.Schema.{Db}
use sesfikile.Database.Session.{Env, Session, database, ok, ◌>>=◌}
use sesfikile.Database.Ensures.{Ensures, Aborts, Faulty}
use sesfikile.Http.{Uuid}

instance abbrev healthy : Env
healthy = record { fails = λ n. false; new_id = λ n. n; now = λ n. n; collates = λ a b. true }

abbrev stop : ℕ → Text → Text → Stop
stop id name source = record {
  id = id;
  name = name;
  latitude = some 1;
  longitude = some 2;
  source = source;
  created_at = 0;
}

abbrev route : ℕ → Text → Route
route id source = record {
  id = id;
  name = bytes "r";
  association_name = [];
  source = source;
  created_at = 0;
}

abbrev leg : (id route from to sequence : ℕ) → RouteLeg
leg id route from to sequence = record {
  id = id;
  route_id = route;
  from_stop_id = from;
  to_stop_id = to;
  sequence = sequence;
  fare_cents = pos 900;
  distance_meters = none;
  fare_estimated = false;
  created_at = 0;
}

abbrev town : Db
town = record {
  users = [];
  drivers = [];
  vehicles = [];
  vehicle_assignments = [];
  accounts = [];
  ledger_transactions = [];
  ledger_postings = [];
  vehicle_fuel_quotas = [];
  fuel_authorizations = [];
  boarding_pass_codes = [];
  stops =
      stop 1 (bytes "a") source_seed
      ∷ stop 2 (bytes "b") source_seed
      ∷ stop 3 (bytes "c") source_catalogue
      ∷ [];
  routes = route 10 source_seed ∷ route 20 source_catalogue ∷ [];
  route_legs = leg 32 10 2 1 2 ∷ leg 31 10 1 2 1 ∷ leg 33 20 1 3 1 ∷ [];
  route_geometries = record { route_id = 20; geometry = []; point_count = 0; created_at = 0 } ∷ [];
}

abbrev request : Db → Session
request d = record { pool = d; tx = d; touched = []; clock = 0 }

all_routes_with_legs-Ensures_example :
    Ensures
      (Aborts town (Down town))
      (λ rs s'.
        (s'.pool ≡ town)
        × (IsOrdered route_by_name (map (λ (r : RouteWithLegs). r.route) rs))
        × (Perm (map (λ (r : RouteWithLegs). r.route) rs) town.routes)
        × All (IsLoaded town) rs)
      all_routes_with_legs
      (request town)
all_routes_with_legs-Ensures_example =
    all_routes_with_legs-Ensures town (λ a b c p q. refl) (λ a b p. refl) (request town) refl

delete_catalogue_data-Ensures_example :
    Ensures
      (Aborts town (Refused healthy town))
      (λ n s'.
        (s'.pool ≡ baseline town) × (n ≡ deleted_of town) × (has_catalogue_pass town ≡ false))
      delete_catalogue_data
      (request town)
delete_catalogue_data-Ensures_example = delete_catalogue_data-Ensures town (request town) refl

delete_catalogue_data_again_example :
    Ensures
      (Aborts (baseline town) (λ e. Faulty healthy × (e ≡ database)))
      (λ n s'. (s'.pool ≡ baseline town) × (n ≡ none_deleted))
      delete_catalogue_data
      (request (baseline town))
delete_catalogue_data_again_example =
    delete_catalogue_data_again town (request (baseline town)) refl

-- A library that writes the numbers one after the other.
abbrev flatten : Polyline → Text
flatten [] = []
flatten ((x, y) ∷ ps) = x ∷ y ∷ flatten ps

abbrev pairs : Text → Polyline
pairs (x ∷ y ∷ t) = (x, y) ∷ pairs t
pairs _ = []

abbrev plain : PolylineJson
plain = record { marshal = λ p. some (flatten p); jsonb = λ t. t; unmarshal = λ t. some (pairs t) }

pairs-flatten : (p : Polyline) → pairs (flatten p) ≡ p
pairs-flatten [] = refl
pairs-flatten ((x, y) ∷ ps) = ap (λ t. (x, y) ∷ t) (pairs-flatten ps)

plain-IsFaithful : IsFaithful plain
plain-IsFaithful p t h = ground (arith, pairs-flatten p)

abbrev line : Polyline
line = (5, 6) ∷ (7, 8) ∷ (9, 10) ∷ []

get_route_geometry-create_route_geometry_example :
    ((create_route_geometry plain 10 line >>= λ _. get_route_geometry plain 10) (request town)).0
    ≡ (if any (λ (g : RouteGeometry). g.route_id == 10) town.route_geometries
        then (get_route_geometry plain 10 (request town)).0
        else ok line)
get_route_geometry-create_route_geometry_example =
    get_route_geometry-create_route_geometry plain plain-IsFaithful (λ n. refl) 10 line
      (flatten line) (request town) refl refl

-- Whole numbers in place of floats.
abbrev whole : Scaling
whole = record { of_int = λ n. n; div = λ a b. a / b; mul = λ a b. a * b; to_int = λ n. n }

decimate_points_lem_example :
    (out : Polyline) × (decimate_points whole line 2 ≡ some out)
    × (((2 < 2) ⊎ (length line ≤ 2)) × (out ≡ line)
        ⊎ (2 ≤ 2)
          × (2 < length line)
          × (length out ≡ 2)
          × (get_elem? out 0 ≡ get_elem? line 0)
          × (((length line - 1 ≤ reach whole line 2 (2 - 1))
                × (get_elem? out (2 - 1) ≡ get_elem? line (length line - 1)))
              ⊎ ((reach whole line 2 (2 - 1) < length line - 1)
                  × (get_elem? out (2 - 1) ≡ get_elem? line (reach whole line 2 (2 - 1)))))
          × ((k : ℕ) → k < 2 → IsPoint whole line 2 k (get_elem? out k)))
decimate_points_lem_example = decimate_points_lem whole line 2 refl

-- An id is written as one byte.
abbrev one_byte : Uuid
one_byte = record { parse = λ t. elim t [ [] ↦ none | x ∷ r ↦ none ]; show = λ n. n ∷ [] }
