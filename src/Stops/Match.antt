-- ===== src/Stops/Match.antt =====
-- backend/internal/stops/match.go and geo.go: which driver is told of a request.
pub mod Nearest
use sesfikile.Base.{
  ℕ, suc, Bool, true, false, Option, none, some, List, [], ◌∷◌, ltb, ◌==◌, if◌then◌else◌,
}
use sesfikile.Stops.Models.{Floats}

pub record RouteStop : Type 0 where
  pub stop_id : ℕ
  pub lat : ℕ
  pub lng : ℕ

pub record DriverPosition : Type 0 where
  pub driver_id : ℕ
  pub vehicle_id : ℕ
  pub lat : ℕ
  pub lng : ℕ

pub record Candidate : Type 0 where
  pub driver_id : ℕ
  pub vehicle_id : ℕ
  pub distance_meters : ℕ

-- `for i, s := range routeStops`, from the index `i` on.
unfoldable pub index_of_stop : ℕ → List RouteStop → ℕ → Option ℕ
index_of_stop i [] stop_id = none
index_of_stop i (s ∷ stops) stop_id =
    if s.stop_id == stop_id then some i else index_of_stop (suc i) stops stop_id

unfoldable pub stop_sequence_index : List RouteStop → ℕ → Option ℕ
stop_sequence_index route_stops stop_id = index_of_stop 0 route_stops stop_id

module _ (float : Floats) where
  unfoldable pub haversine_meters : (lat1 lng1 lat2 lng2 : ℕ) → ℕ
  haversine_meters lat1 lng1 lat2 lng2 =
      let d_lat = float.mul (float.sub lat2 lat1) float.rad in
      let d_lng = float.mul (float.sub lng2 lng1) float.rad in
      let half_lat = float.sin (float.div d_lat float.two) in
      let half_lng = float.sin (float.div d_lng float.two) in
      let a = float.add (float.mul half_lat half_lat) (
        float.mul
          (float.mul
            (float.mul (float.cos (float.mul lat1 float.rad))
              (float.cos (float.mul lat2 float.rad)))
            half_lng)
          half_lng) in
      let c =
        float.mul float.two (float.atan2 (float.sqrt a) (float.sqrt (float.sub float.one a))) in
      float.mul float.earth_radius_meters c

  -- The loop from the index `i` on, with the best index and distance so far.
  unfoldable pub nearest_from : (i best best_dist : ℕ) → List RouteStop → (lat lng : ℕ) → ℕ
  nearest_from i best best_dist [] lat lng = best
  nearest_from i best best_dist (s ∷ stops) lat lng =
      let d = haversine_meters lat lng s.lat s.lng in
      let closer = float.less d best_dist in
      nearest_from (suc i) (if closer then i else best) (if closer then d else best_dist) stops lat
        lng

  unfoldable pub nearest_stop_index : List RouteStop → (lat lng : ℕ) → ℕ
  nearest_stop_index route_stops lat lng = nearest_from 0 0 float.max_float route_stops lat lng

  -- `nearestStopIndex(…) > targetIndex`
  abbrev pub has_passed : List RouteStop → ℕ → DriverPosition → Bool
  has_passed route_stops target_index d =
      ltb target_index (nearest_stop_index route_stops d.lat d.lng)

  abbrev pub candidate_of : RouteStop → DriverPosition → Candidate
  candidate_of target d = record {
    driver_id = d.driver_id;
    vehicle_id = d.vehicle_id;
    distance_meters = haversine_meters d.lat d.lng target.lat target.lng;
  }

  -- `if !found || dist < best.DistanceMeters`
  abbrev pub nearer : Candidate → Option Candidate → Candidate
  nearer c none = c
  nearer c (some best) = if float.less c.distance_meters best.distance_meters then c else best

  unfoldable pub choose_driver :
      List RouteStop → ℕ → RouteStop → Option Candidate → List DriverPosition → Option Candidate
  choose_driver route_stops target_index target best [] = best
  choose_driver route_stops target_index target best (d ∷ drivers) =
      choose_driver route_stops target_index target
        (if has_passed route_stops target_index d
          then best
          else some (nearer (candidate_of target d) best))
        drivers

  unfoldable pub find_approaching_driver :
      List DriverPosition → List RouteStop → RouteStop → Option Candidate
  find_approaching_driver drivers route_stops target_stop =
      elim (stop_sequence_index route_stops target_stop.stop_id) [
        | none ↦ none
        | some target_index ↦ choose_driver route_stops target_index target_stop none drivers
      ]
