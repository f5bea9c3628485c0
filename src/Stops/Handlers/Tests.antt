-- ===== src/Stops/Handlers/Tests.antt =====
-- A stop request on a route of two stops, with one vehicle on it
-- (backend/internal/stops/handlers.go).
use sesfikile.Base.{◌+◌, true, false, ◌≡◌, refl, none, some, [], ◌∷◌, ltb}
use sesfikile.Base.Int.{pos}
use sesfikile.Base.Text.{bytes, text_eq}
use sesfikile.Base.Dict.{lookup, insert}
use sesfikile.Base.Sort.{insert_by, order_by}
use sesfikile.Identity.Tokens.{Claims}
use sesfikile.Routing.Models.{source_seed}
use sesfikile.Routing.Repo.{get_stop_by_id, get_route_by_id, list_legs_for_route}
use sesfikile.Telemetry.Store.{VehicleStateStore, list_by_route}
use sesfikile.Telemetry.Mailbox.{deliver, any_room, offer_all}
use sesfikile.Telemetry.Alerts.{DriverAlertHub, send}
use sesfikile.Stops.Models.{Floats, pending}
use sesfikile.Stops.Match.{
  stop_sequence_index, index_of_stop, haversine_meters, nearest_from, nearest_stop_index,
  choose_driver, find_approaching_driver,
}
use sesfikile.Stops.Store.{put}
use sesfikile.Stops.Loading.{unseen_stops, stop_ids, load_stops, load_route_stops}
use sesfikile.Stops.Handlers.{
  RequestStopRequest, request_stop, prepare_stops, prepare_legs, prepare_on, prepare,
  serve_request_stop,
}
use sesfikile.Stops.Handlers.Outcome.{Outcome}
use sesfikile.Database.Schema.{Db}
use sesfikile.Database.Session.{Env, Session, query, catch, pure, ◌>>=◌}
use sesfikile.Http.{reply, answer, attempt, parsed, Uuid}

instance abbrev healthy : Env
healthy = record { fails = λ n. false; new_id = λ n. n; now = λ n. n; collates = λ a b. true }

-- Numbers in place of floats, with sums for distances.
abbrev numbers : Floats
numbers = record {
  add = λ a b. a + b;
  sub = λ a b. a + b;
  mul = λ a b. a;
  div = λ a b. a;
  sin = λ a. a;
  cos = λ a. a;
  sqrt = λ a. a;
  atan2 = λ a b. a;
  less = ltb;
  one = 1;
  two = 2;
  rad = 1;
  earth_radius_meters = 6371000;
  max_float = 10000000;
}

-- An id is the first byte of its text.
abbrev short_ids : Uuid
short_ids = record { parse = λ t. elim t [ [] ↦ none | c ∷ rest ↦ some c ]; show = λ n. n ∷ [] }

abbrev town : Db
town = record {
  drivers = [];
  vehicles = [];
  vehicle_assignments = [];
  accounts = [];
  ledger_transactions = [];
  ledger_postings = [];
  vehicle_fuel_quotas = [];
  fuel_authorizations = [];
  boarding_pass_codes = [];
  users = [];
  stops =
      record {
        id = 1;
        name = bytes "Rank";
        latitude = some 0;
        longitude = some 0;
        source = source_seed;
        created_at = 0;
      }
      ∷ record {
        id = 2;
        name = bytes "Main";
        latitude = some 5;
        longitude = some 0;
        source = source_seed;
        created_at = 0;
      }
      ∷ [];
  routes =
      record {
        id = 4;
        name = bytes "North";
        association_name = [];
        source = source_seed;
        created_at = 0;
      }
      ∷ [];
  route_legs =
      record {
        id = 6;
        route_id = 4;
        from_stop_id = 1;
        to_stop_id = 2;
        sequence = 1;
        fare_cents = pos 900;
        distance_meters = none;
        fare_estimated = false;
        created_at = 0;
      }
      ∷ [];
  route_geometries = [];
}

abbrev start : Session
start = record { pool = town; tx = town; touched = []; clock = 0 }

abbrev taxis : VehicleStateStore
taxis =
    (
      80,
      record {
        vehicle_id = 80;
        route_id = 4;
        driver_id = 8;
        lat = 1;
        lng = 0;
        seats_total = pos 15;
        seats_available = pos 3;
        online = true;
        last_updated = 0;
      },
    )
    ∷ []

abbrev alerts : DriverAlertHub
alerts = (8, record { pointer = 0; key = 8; ch = [] } ∷ []) ∷ []

abbrev commuter : Claims
commuter = record {
  user_id = 7;
  role = bytes "commuter";
  issued_at = 0;
  expires_at = 100;
  subject = [];
}

abbrev body : RequestStopRequest
body = record { route_id = 4 ∷ []; stop_id = 2 ∷ [] }

-- The driver is told.
request_is_delivered :
    (serve_request_stop short_ids
      (λ t. t ∷ [])
      numbers
      taxis
      30
      50
      (some commuter)
      (some body)
      start
      (alerts, [])).0.0
    ≡ reply 201
        (record { request_id = 30 ∷ []; status = pending; driver_available = true; message = [] })
unfolding serve_request_stop prepare prepare_on prepare_legs prepare_stops parsed attempt answer
    get_route_by_id get_stop_by_id list_legs_for_route query catch pure ◌>>=◌ order_by insert_by
    load_route_stops load_stops stop_ids unseen_stops stop_sequence_index index_of_stop request_stop
    find_approaching_driver choose_driver nearest_stop_index nearest_from haversine_meters
    list_by_route send deliver any_room offer_all put insert lookup text_eq
request_is_delivered = refl
