-- ===== src/Stops/Handlers.antt =====
-- backend/internal/stops/handlers.go: `RequestStop` and `AckRequest`.
pub mod Matched
pub mod Checks
pub mod Outcome
mod Tests
use sesfikile.Base.{
  ℕ, zero, suc, Bool, true, false, Option, none, some, List, [], ◌∷◌, map, ◌==◌, if◌then◌else◌,
}
use sesfikile.Base.Text.{Text, bytes, text_eq}
use sesfikile.Identity.Models.{Driver}
use sesfikile.Identity.Tokens.{Claims}
use sesfikile.Identity.Repo.{get_driver_by_user_id}
use sesfikile.Routing.Models.{source_catalogue, RouteLeg, Route}
use sesfikile.Routing.Repo.{get_stop_by_id, get_route_by_id, list_legs_for_route}
use sesfikile.Telemetry.Store.{VehicleState, VehicleStateStore, list_by_route}
use sesfikile.Telemetry.Alerts.{AlertMessage, DriverAlertHub, send}
use sesfikile.Stops.Models.{Floats, Status, pending, unmatched, acknowledged, Request}
use sesfikile.Stops.Match.{
  RouteStop, DriverPosition, Candidate, stop_sequence_index, find_approaching_driver,
}
use sesfikile.Stops.Store.{Store, put, get, acknowledge}
use sesfikile.Stops.Loading.{load_route_stops}
use sesfikile.Database.Session.{Env, Session}
use sesfikile.Http.{Reply, reply, refuse, Handler, answer, attempt, parsed, failed, Uuid}

pub record RequestStopRequest : Type 0 where
  pub route_id : Text
  pub stop_id : Text

pub record RequestStopResponse : Type 0 where
  pub request_id : Text
  pub status : Status
  pub driver_available : Bool
  pub message : Text

pub record AckResponse : Type 0 where
  pub request_id : Text
  pub status : Status

abbrev pub position_of : VehicleState → DriverPosition
position_of s = record {
  driver_id = s.driver_id;
  vehicle_id = s.vehicle_id;
  lat = s.lat;
  lng = s.lng;
}

-- `Request{…, Status: StatusUnmatched}`
abbrev pub new_request : (id commuter route stop : ℕ) → Text → ℕ → Request
new_request id commuter_id route_id stop_id stop_name now = record {
  id = id;
  commuter_id = commuter_id;
  route_id = route_id;
  stop_id = stop_id;
  stop_name = stop_name;
  requested_at = now;
  status = unmatched;
  matched_driver_id = none;
  acked_at = none;
}

-- `Format(time.RFC3339)` of a time is an argument.
abbrev pub alert_of : Uuid → (rfc3339 : ℕ → Text) → Request → AlertMessage
alert_of uuid rfc3339 request = record {
  type = bytes "stop_request";
  request_id = uuid.show request.id;
  route_id = uuid.show request.route_id;
  stop_id = uuid.show request.stop_id;
  stop_name = request.stop_name;
  requested_at = rfc3339 request.requested_at;
}

-- The alert to the driver that was found, which is delivered or not.
abbrev pub alert_driver :
    Uuid
    → (rfc3339 : ℕ → Text) → Request
    → Option Candidate
    → DriverAlertHub
    → DriverAlertHub × Request
alert_driver uuid rfc3339 request none alerts = (alerts, request)
alert_driver uuid rfc3339 request (some candidate) alerts =
    let (alerts', delivered) = send candidate.driver_id (alert_of uuid rfc3339 request) alerts in
    (
      alerts',
      if delivered
          then record request { status = pending; matched_driver_id = some candidate.driver_id }
          else request,
    )

-- `RequestStop` from its list of the route's drivers on.
unfoldable pub request_stop :
    Uuid
    → (rfc3339 : ℕ → Text) → Floats
    → VehicleStateStore
    → List RouteStop
    → RouteStop
    → Request
    → DriverAlertHub × Store
    → (DriverAlertHub × Store) × Request
request_stop uuid rfc3339 float telemetry route_stops target_stop request (alerts, store) =
    let drivers = map position_of (list_by_route request.route_id telemetry) in
    let (alerts', matched) =
      alert_driver uuid rfc3339 request
        (find_approaching_driver float drivers route_stops target_stop) alerts in
    ((alerts', (put matched store).0), matched)

-- What `RequestStop` has read when all its checks have passed.
pub record Prepared : Type 0 where
  pub route_stops : List RouteStop
  pub target_stop : RouteStop
  pub request : Request

-- `routeStops[targetIdx]`, of an index that is in range.
abbrev pub stop_at : List RouteStop → ℕ → Option RouteStop
stop_at [] i = none
stop_at (s ∷ stops) zero = some s
stop_at (s ∷ stops) (suc i) = stop_at stops i

abbrev pub target_of : List RouteStop → ℕ → Option RouteStop
target_of stops stop_id = elim (stop_sequence_index stops stop_id) [
  | none ↦ none
  | some i ↦ stop_at stops i
]

-- `request.MatchedDriverID == nil || *request.MatchedDriverID != driver.ID`
abbrev pub is_matched : Option ℕ → Driver → Bool
is_matched none driver = false
is_matched (some id) driver = id == driver.id

-- A response tells of a driver if the request is pending.
abbrev pub respond : Uuid → Request → Status → Reply RequestStopResponse
respond uuid r pending = reply 201 (record {
  request_id = uuid.show r.id;
  status = pending;
  driver_available = true;
  message = [];
})
respond uuid r other = reply 200 (record {
  request_id = uuid.show r.id;
  status = other;
  driver_available = false;
  message = bytes "no driver is currently available for this stop";
})

abbrev pub ack_response : Uuid → Request → AckResponse
ack_response uuid r = record { request_id = uuid.show r.id; status = r.status }

abbrev pub ack_found :
    Uuid → Driver → (now : ℕ) → (id : ℕ) → Option Request → Store → Reply AckResponse × Store
ack_found uuid driver now id none store = (refuse 404 "stop request not found", store)
ack_found uuid driver now id (some request) store =
    if is_matched request.matched_driver_id driver
    then elim (acknowledge id now store).1 [
      | none ↦ (refuse 404 "stop request not found", (acknowledge id now store).0)
      | some updated ↦ (reply 200 (ack_response uuid updated), (acknowledge id now store).0)
    ]
    else (refuse 403 "not the matched driver for this request", store)

-- A reply of a handler's first part, which reads the database only, goes on to the second part.
abbrev pub proceed {ℓ} :
    {A B : Type 0} {W : Type ℓ}
    → Reply A × Session
    → (A → W → Reply B × W)
    → W
    → (Reply B × Session) × W
proceed (reply n a, s) k w = let (r, w') = k a w in ((r, s), w')
proceed (refuse n message, s) k w = ((refuse n message, s), w)

module _ ⦃env : Env⦄ (uuid : Uuid) where
  -- From the route's stops on.
  unfoldable pub prepare_stops :
      (id now commuter route stop : ℕ) → List RouteStop → Handler Prepared
  prepare_stops id now commuter route stop stops =
      parsed (target_of stops stop) (refuse 404 "stop is not on this route") λ target.
        attempt (get_stop_by_id stop) (λ e. refuse 404 "stop not found")
          λ named. answer (
            reply 200 (record {
              route_stops = stops;
              target_stop = target;
              request = new_request id commuter route stop named.name now;
            }))

  -- From the route's legs on.
  unfoldable pub prepare_legs : (id now commuter route stop : ℕ) → List RouteLeg → Handler Prepared
  prepare_legs id now commuter route stop [] = answer (refuse 500 "failed to load route legs")
  prepare_legs id now commuter route stop (leg ∷ legs) =
      attempt (load_route_stops leg legs) (failed "failed to load route stops") λ loaded.
        parsed loaded
          (refuse 422
            "this route has no known stop coordinates (likely an imported catalogue route with no map data) and cannot be used for live stop requests")
          (prepare_stops id now commuter route stop)

  -- From the route on.
  unfoldable pub prepare_on : (id now commuter route stop : ℕ) → Route → Handler Prepared
  prepare_on id now commuter route stop rt =
      if text_eq rt.source source_catalogue
      then answer (
          refuse 422
            "this is a catalogue-imported route with no live vehicles — stop requests aren't available on it")
      else attempt (list_legs_for_route route) (failed "failed to load route legs")
          (prepare_legs id now commuter route stop)

  -- The checks of `RequestStop`. The new id and the time are arguments.
  unfoldable pub prepare :
      (id now : ℕ) → Option Claims → Option RequestStopRequest → Handler Prepared
  prepare id now auth body = parsed auth (refuse 401 "unauthorized") λ claims.
      parsed body (refuse 400 "invalid request body") λ req.
        parsed (uuid.parse req.route_id) (refuse 400 "route_id must be a valid uuid") λ route.
          parsed (uuid.parse req.stop_id) (refuse 400 "stop_id must be a valid uuid") λ stop.
            attempt (get_route_by_id route) (λ e. refuse 404 "route not found")
              (prepare_on id now claims.user_id route stop)

  unfoldable pub serve_request_stop :
      (rfc3339 : ℕ → Text)
      → Floats
      → VehicleStateStore
      → (id now : ℕ) → Option Claims
      → Option RequestStopRequest
      → Session
      → DriverAlertHub × Store
      → (Reply RequestStopResponse × Session) × (DriverAlertHub × Store)
  serve_request_stop rfc3339 float telemetry id now auth body s =
      proceed (prepare id now auth body s) λ p w.
        let (w', r) =
          request_stop uuid rfc3339 float telemetry p.route_stops p.target_stop p.request w in
        (respond uuid r r.status, w')

  -- The driver profile and the id that `AckRequest` goes on with.
  unfoldable pub prepare_ack : Option Claims → Text → Handler (Driver × ℕ)
  prepare_ack auth path = parsed auth (refuse 401 "unauthorized") λ claims.
      parsed (uuid.parse path) (refuse 400 "id must be a valid uuid") λ id.
        attempt (get_driver_by_user_id claims.user_id)
          (λ e. refuse 403 "no driver profile for this account")
          λ driver. answer (reply 200 (driver, id))

  unfoldable pub ack_request :
      Option Claims → Text → (now : ℕ) → Session → Store → (Reply AckResponse × Session) × Store
  ack_request auth path now s =
      proceed (prepare_ack auth path s)
        λ (driver, id) store. ack_found uuid driver now id (get id store) store
