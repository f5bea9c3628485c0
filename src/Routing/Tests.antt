-- ===== src/Routing/Tests.antt =====
-- Rides on two short routes (backend/internal/routing/graph.go).
use sesfikile.Base.{ℕ, false, ◌≡◌, refl, none, some, List, [], ◌∷◌, arith}
use sesfikile.Base.Int.{ℤ, pos, ◌+ℤ◌, int_laws}
use sesfikile.Base.Word.{i64}
use sesfikile.Base.Text.{bytes}
use sesfikile.Base.Dict.{lookup, insert}
use sesfikile.Routing.Models.{RouteLeg, RouteWithLegs}
use sesfikile.Routing.Graph.{
  Segment, stops_of, index_from, route_stop_order, add_fares, ride, direct_segment,
  fare_for_segment, bare_route, for_each, offer, via, try_second, try_first, best_direct,
  best_transfer, search,
}
use sesfikile.Routing.Graph.Rides.{
  IsPriced, IsRide, total_fares, direct_segment-IsRide, fare_for_segment-IsRide,
}
use sesfikile.Routing.Graph.Search.{SearchAnswer, search-Answer}

abbrev leg : (from_stop to_stop sequence : ℕ) → ℤ → RouteLeg
leg from_stop to_stop sequence fare = record {
  id = sequence;
  route_id = 0;
  from_stop_id = from_stop;
  to_stop_id = to_stop;
  sequence = sequence;
  fare_cents = fare;
  distance_meters = none;
  fare_estimated = false;
  created_at = 0;
}

abbrev corridor : ℕ → List RouteLeg → RouteWithLegs
corridor id legs = record {
  route = record {
    id = id;
    name = [];
    association_name = [];
    source = bytes "seed";
    created_at = 0;
  };
  legs = legs;
}

abbrev north : RouteWithLegs
north = corridor 100 (leg 1 2 1 (pos 500) ∷ leg 2 3 2 (pos 700) ∷ [])

abbrev east : RouteWithLegs
east = corridor 200 (leg 3 4 1 (pos 900) ∷ [])

-- From 1 to 4 there is no direct ride; the change is at stop 3.
search_changes :
    search (north ∷ east ∷ []) 1 4
    ≡ some (record {
      transfers = 1;
      total_fare_cents = pos 2100;
      segments = ride north 0 2 ∷ ride east 0 1 ∷ [];
    })
unfolding search best_direct best_transfer try_first try_second via offer for_each direct_segment
    route_stop_order stops_of index_from lookup insert add_fares ◌+ℤ◌ i64
search_changes = refl

north-IsPriced : IsPriced north.legs
north-IsPriced = ((omega arith, (omega arith, tt)), omega int_laws)

direct_segment-IsRide_example : IsRide north 2 3 (ride north 1 2)
unfolding direct_segment lookup route_stop_order index_from stops_of insert
direct_segment-IsRide_example =
    direct_segment-IsRide north 2 3 (ride north 1 2) (refl, tt) north-IsPriced found
  where
    found : direct_segment north 2 3 ≡ some (ride north 1 2)
    found = refl

fare_for_segment-IsRide_example :
    (seg : Segment) × IsRide (bare_route north.legs) 1 3 seg × (pos 1200 ≡ total_fares seg.legs)
unfolding fare_for_segment direct_segment lookup route_stop_order index_from stops_of insert
    add_fares i64 ◌+ℤ◌
fare_for_segment-IsRide_example =
    fare_for_segment-IsRide north.legs 1 3 (pos 1200) (refl, tt) north-IsPriced refl

search-Answer_example : SearchAnswer (north ∷ east ∷ []) 1 4 (search (north ∷ east ∷ []) 1 4)
search-Answer_example = search-Answer (north ∷ east ∷ []) 1 4
