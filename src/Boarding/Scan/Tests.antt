-- ===== src/Boarding/Scan/Tests.antt =====
-- A scan of a signed pass on a vehicle that is online (backend/internal/boarding/handlers.go).
use sesfikile.Base.{true, false, some, [], ◌∷◌}
use sesfikile.Base.Int.{pos}
use sesfikile.Base.Text.{bytes}
use sesfikile.Identity.Models.{kyc_verified}
use sesfikile.Boarding.Models.{PassPayload}
use sesfikile.Boarding.Token.{Codec}
use sesfikile.Boarding.Scan.{Server, Setup, Times, ScanPassRequest, scan_pass}
use sesfikile.Boarding.Scan.Promise.{ScanOutcome}
use sesfikile.Boarding.Scan.Outcome.{scan_pass-Outcome}
use sesfikile.Telemetry.Store.{VehicleStateStore}
use sesfikile.Database.Schema.{Db}
use sesfikile.Database.Session.{Env}

instance abbrev healthy : Env
healthy = record { fails = λ n. false; new_id = λ n. n; now = λ n. n; collates = λ a b. true }

abbrev pass : PassPayload
pass = record {
  commuter_id = 7;
  route_id = 4;
  from_stop_id = 1;
  to_stop_id = 3;
  fare_cents = pos 1250;
  issued_at = 100;
  expires_at = 280;
  nonce = bytes "n1";
}

-- Every token stands for the pass.
abbrev trusting : Codec
trusting = record {
  hmac = λ k s. bytes "m";
  encode = λ s. s;
  decode = λ s. some s;
  marshal = λ p. some (bytes "p");
  unmarshal = λ s. some pass;
}

abbrev setup : Setup
setup = record {
  codec = trusting;
  secret = bytes "k";
  to_upper = λ c. c;
  platform_pct = pos 10;
  driver_pct = pos 25;
  render = record { show_uuid = λ n. n ∷ []; format_time = λ n. n ∷ [] };
}

abbrev times : Times
times = record { attempt_at = 200; sweep_at = 200; check_at = 200; adjust_at = 200 }

abbrev tables : Db
tables = record {
  drivers =
      record {
        id = 11;
        user_id = 12;
        full_name = [];
        prdp_number = [];
        prdp_verified = true;
        id_number = [];
        kyc_status = kyc_verified;
        created_at = 0;
        updated_at = 0;
      }
      ∷ [];
  vehicles = [];
  vehicle_assignments =
      record {
        id = 31;
        vehicle_id = 21;
        driver_id = 11;
        active = true;
        created_at = 0;
        updated_at = 0;
      }
      ∷ [];
  accounts = [];
  ledger_transactions = [];
  ledger_postings = [];
  vehicle_fuel_quotas = [];
  fuel_authorizations = [];
  boarding_pass_codes = [];
  users = [];
  stops = [];
  routes = [];
  route_legs = [];
  route_geometries = [];
}

abbrev vehicles : VehicleStateStore
vehicles =
    (
      21,
      record {
        vehicle_id = 21;
        route_id = 4;
        driver_id = 11;
        lat = 0;
        lng = 0;
        seats_total = pos 15;
        seats_available = pos 6;
        online = true;
        last_updated = 90;
      },
    )
    ∷ []

abbrev server : Server
server = record {
  session = record { pool = tables; tx = tables; touched = []; clock = 0 };
  telemetry = vehicles;
  hub = [];
  attempts = [];
}

abbrev request : ScanPassRequest
request = record { pass_token = bytes "p.m"; short_code = [] }

scan_pass-Outcome_example :
    ScanOutcome setup times
      (some 12)
      (some request)
      server
      (scan_pass setup times (some 12) (some request) server)
scan_pass-Outcome_example = scan_pass-Outcome setup times (some 12) (some request) server
