-- ===== src/Routing/Handlers.antt =====
-- The handlers of backend/internal/routing/handlers.go. The query parameters are arguments.
pub mod Replies
use sesfikile.Base.{
  ℕ, Bool, true, false, Option, none, some, List, [], ◌∷◌, map, length, ltb, ◌||◌, if◌then◌else◌,
}
use sesfikile.Base.Int.{ℤ, pos, negsuc}
use sesfikile.Base.Text.{Text, is_empty}
use sesfikile.Base.Dict.{Dict, lookup, insert}
use sesfikile.Routing.Models.{Stop, Route, RouteLeg, Polyline, coordinates_known}
use sesfikile.Routing.Graph.{Segment, SearchResult, search}
use sesfikile.Routing.Repo.{
  get_stop_by_id, get_stop_by_name, list_stops, list_stops_with_coordinates, get_route_by_id,
  list_routes, list_legs_for_route, all_routes_with_legs,
}
use sesfikile.Routing.Geometry.{
  PolylineJson, RouteGeometryRow, get_route_geometry, list_route_geometries,
}
use sesfikile.Routing.Decimate.{Scaling, decimate_points}
use sesfikile.Database.Session.{Env, Error, Action, pure, ◌>>=◌}
use sesfikile.Http.{
  Reply, reply, refuse, Handler, answer, attempt, parsed, missing_or_failed, failed, Uuid,
}

pub record RouteResponse : Type 0 where
  pub id : Text
  pub name : Text
  pub association_name : Text
  pub source : Text

pub record LegResponse : Type 0 where
  pub id : Text
  pub route_id : Text
  pub sequence : ℕ
  pub from_stop_id : Text
  pub from_stop_name : Text
  pub to_stop_id : Text
  pub to_stop_name : Text
  pub fare_cents : ℤ
  pub fare_estimated : Bool
  pub distance_meters : Option ℕ

pub record StopResponse : Type 0 where
  pub id : Text
  pub name : Text
  pub latitude : Option ℕ
  pub longitude : Option ℕ
  pub coordinates_known : Bool
  pub source : Text

pub record RouteDetailResponse : Type 0 where
  pub route : RouteResponse
  pub legs : List LegResponse

pub record GeometryResponse : Type 0 where
  pub route_id : Text
  pub point_count : ℕ
  pub points : Polyline

pub record RouteGeometrySummary : Type 0 where
  pub route_id : Text
  pub original_point_count : ℕ
  pub points : Polyline

pub record SegmentResponse : Type 0 where
  pub route_id : Text
  pub route_name : Text
  pub legs : List LegResponse
  pub fare_cents : ℤ

pub record SearchResponse : Type 0 where
  pub transfers : ℕ
  pub total_fare_cents : ℤ
  pub segments : List SegmentResponse

-- A read of a Go map of stops: a missing key gives the zero value.
unfoldable pub stop_at : Dict Stop → ℕ → Stop
stop_at stops id = elim (lookup id stops) [
  | none ↦ record {
    id = 0;
    name = [];
    latitude = none;
    longitude = none;
    source = [];
    created_at = 0;
  }
  | some s ↦ s
]

-- `for _, s := range stops { byID[s.ID] = s }`
unfoldable pub index_stops : List Stop → Dict Stop → Dict Stop
index_stops [] by_id = by_id
index_stops (s ∷ stops) by_id = index_stops stops (insert s.id s by_id)

-- The stops along legs: where the first starts, and where each ends.
unfoldable pub stops_along : Dict Stop → List RouteLeg → List Stop
stops_along stops [] = []
stops_along stops (l ∷ legs) =
    stop_at stops l.from_stop_id ∷ map (λ (k : RouteLeg). stop_at stops k.to_stop_id) (l ∷ legs)

-- What `max_points` says; `atoi` is strconv.Atoi.
unfoldable pub max_points : (atoi : Text → Option ℤ) → Text → ℕ
max_points atoi value =
    if is_empty value
    then 40
    else elim (atoi value) [ none ↦ 40 | some n ↦ elim n [ pos k ↦ k | negsuc k ↦ 40 ] ]

module _ (uuid : Uuid) where
  -- `none` stands for an index out of range.
  unfoldable pub summaries :
      Scaling → ℕ → List RouteGeometryRow → Option (List RouteGeometrySummary)
  summaries float max [] = some []
  summaries float max (row ∷ rows) =
      let rest = summaries float max rows in
      elim (if ltb 0 max then decimate_points float row.points max else some row.points) [
        | none ↦ none
        | some pts ↦ elim rest [
          | none ↦ none
          | some out ↦ some (
              record {
                route_id = uuid.show row.route_id;
                original_point_count = length row.points;
                points = pts;
              }
              ∷ out)
        ]
      ]

  unfoldable pub to_route_response : Route → RouteResponse
  to_route_response rt = record {
    id = uuid.show rt.id;
    name = rt.name;
    association_name = rt.association_name;
    source = rt.source;
  }

  unfoldable pub to_leg_response : Dict Stop → RouteLeg → LegResponse
  to_leg_response stops l = record {
    id = uuid.show l.id;
    route_id = uuid.show l.route_id;
    sequence = l.sequence;
    from_stop_id = uuid.show l.from_stop_id;
    from_stop_name = (stop_at stops l.from_stop_id).name;
    to_stop_id = uuid.show l.to_stop_id;
    to_stop_name = (stop_at stops l.to_stop_id).name;
    fare_cents = l.fare_cents;
    fare_estimated = l.fare_estimated;
    distance_meters = l.distance_meters;
  }

  unfoldable pub to_stop_response : Stop → StopResponse
  to_stop_response s = record {
    id = uuid.show s.id;
    name = s.name;
    latitude = s.latitude;
    longitude = s.longitude;
    coordinates_known = coordinates_known s;
    source = s.source;
  }

  unfoldable pub to_segment_response : Dict Stop → Segment → SegmentResponse
  to_segment_response stops seg = record {
    route_id = uuid.show seg.route_id;
    route_name = seg.route_name;
    legs = map (to_leg_response stops) seg.legs;
    fare_cents = seg.fare_cents;
  }

  module _ ⦃env : Env⦄ where
    unfoldable pub stops_by_id : Action (Dict Stop)
    stops_by_id = list_stops >>= λ stops. pure (index_stops stops [])

    unfoldable pub serve_list_routes : Handler (List RouteResponse)
    serve_list_routes =
        attempt list_routes (failed "failed to list routes")
          λ routes. answer (reply 200 (map to_route_response routes))

    unfoldable pub serve_route_stops : Text → Handler (List StopResponse)
    serve_route_stops route_id =
        parsed (uuid.parse route_id) (refuse 400 "route_id must be a valid uuid") λ route.
          attempt (get_route_by_id route)
            (missing_or_failed "route not found" "failed to load route")
            λ rt. attempt (list_legs_for_route route) (failed "failed to load route legs") λ legs.
              attempt stops_by_id (failed "failed to load stops")
                λ stops. answer (reply 200 (map to_stop_response (stops_along stops legs)))

    unfoldable pub serve_list_stops : Text → Handler (List StopResponse)
    serve_list_stops route_id =
        if is_empty route_id
        then attempt list_stops_with_coordinates (failed "failed to list stops")
            (λ stops. answer (reply 200 (map to_stop_response stops)))
        else serve_route_stops route_id

    unfoldable pub serve_get_route : Text → Handler RouteDetailResponse
    serve_get_route param = parsed (uuid.parse param) (refuse 400 "id must be a valid uuid") λ id.
        attempt (get_route_by_id id) (missing_or_failed "route not found" "failed to load route")
          λ route. attempt (list_legs_for_route id) (failed "failed to load route legs") λ legs.
            attempt stops_by_id (failed "failed to load stops") λ stops. answer (
              reply 200 (record {
                route = to_route_response route;
                legs = map (to_leg_response stops) legs;
              }))

    -- An id or, failing that, a name.
    unfoldable pub resolve_stop : Text → Action Stop
    resolve_stop value = elim (uuid.parse value) [
      | some id ↦ get_stop_by_id id
      | none ↦ get_stop_by_name value
    ]

    unfoldable pub found_path : Option SearchResult → Handler SearchResponse
    found_path none = answer (refuse 404 "no route found between the given stops")
    found_path (some result) = attempt stops_by_id (failed "failed to load stops") λ stops. answer (
        reply 200 (record {
          transfers = result.transfers;
          total_fare_cents = result.total_fare_cents;
          segments = map (to_segment_response stops) result.segments;
        }))

    unfoldable pub serve_search : (from to : Text) → Handler SearchResponse
    serve_search from to =
        if is_empty from || is_empty to
        then answer (refuse 400 "from and to are required")
        else attempt (resolve_stop from)
            (missing_or_failed "from stop not found" "failed to resolve from stop")
            λ a.
              attempt (resolve_stop to)
                (missing_or_failed "to stop not found" "failed to resolve to stop")
                λ b.
                  attempt all_routes_with_legs (failed "failed to load routes")
                    λ routes. found_path (search routes a.id b.id)

    module _ (json : PolylineJson) where
      unfoldable pub serve_get_route_geometry : Text → Handler GeometryResponse
      serve_get_route_geometry param =
          parsed (uuid.parse param) (refuse 400 "id must be a valid uuid") λ id.
            attempt (get_route_by_id id)
              (missing_or_failed "route not found" "failed to load route")
              λ route.
                attempt (get_route_geometry json id)
                  (missing_or_failed
                    "no geometry recorded for this route (likely a hand-seeded corridor, not a catalogue import)"
                    "failed to load route geometry")
                  λ points. answer (
                    reply 200 (record {
                      route_id = uuid.show id;
                      point_count = length points;
                      points = points;
                    }))

      unfoldable pub serve_list_route_geometries :
          Scaling → (atoi : Text → Option ℤ) → Text → Handler (Option (List RouteGeometrySummary))
      serve_list_route_geometries float atoi value =
          attempt (list_route_geometries json) (failed "failed to list route geometries")
            λ rows. answer (reply 200 (summaries float (max_points atoi value) rows))
