-- ===== src/Boarding/Issue/Tests.antt =====
-- A commuter buys a pass (backend/internal/boarding/handlers.go).
use sesfikile.Base.{◌++◌, ℕ, true, false, some, none, [], ◌∷◌, find?, ◌==◌, ◌≡◌, ◌⊎◌, refl, arith}
use sesfikile.Base.Int.{pos}
use sesfikile.Base.Text.{bytes, text_eq}
use sesfikile.Identity.Tokens.{Claims}
use sesfikile.Identity.Models.{role_commuter}
use sesfikile.Routing.Models.{Route, source_seed}
use sesfikile.Boarding.Models.{PassPayload}
use sesfikile.Boarding.Code.{generate_code}
use sesfikile.Boarding.Token.{Codec, sign, sign_bytes}
use sesfikile.Boarding.Issue.{
  IssuePassRequest, Issuer, payload_of, response_of, sign_and_store, issue_pass,
}
use sesfikile.Boarding.Issue.Outcome.{IsFilled, IsUnchanged}
use sesfikile.Boarding.Issue.Issued.{Ride, issue_pass-Ride}
use sesfikile.Boarding.Issue.Retries.{Draws, sign_and_store-Issues}
use sesfikile.Database.Schema.{Db}
use sesfikile.Database.Session.{Env, Session}
use sesfikile.Http.{reply}

instance abbrev healthy : Env
healthy = record { fails = λ n. false; new_id = λ n. n; now = λ n. n; collates = λ a b. true }

-- A token is its nonce.
abbrev nonce_codec : Codec
nonce_codec = record {
  hmac = λ k s. bytes "m";
  encode = λ s. s;
  decode = λ s. some s;
  marshal = λ p. some p.nonce;
  unmarshal = λ s. none;
}

abbrev issuer : Issuer
issuer = record {
  codec = nonce_codec;
  secret = bytes "k";
  uuid = record { parse = λ t. elim t [ [] ↦ none | c ∷ r ↦ some c ]; show = λ n. n ∷ [] };
  ttl = 180;
  now = 1000;
  nonce = bytes "n";
  random = λ i. some (i ∷ []);
  rfc3339 = λ t. [];
}

abbrev corridor : Db
corridor = record {
  users = [];
  drivers = [];
  vehicles = [];
  vehicle_assignments = [];
  accounts = [];
  ledger_transactions = [];
  ledger_postings = [];
  vehicle_fuel_quotas = [];
  fuel_authorizations = [];
  boarding_pass_codes =
      record {
        code = bytes "0";
        pass_token = [];
        nonce = [];
        commuter_id = 8;
        route_id = 100;
        expires_at = 50;
        created_at = 0;
      }
      ∷ [];
  stops = [];
  routes =
      record { id = 100; name = []; association_name = []; source = source_seed; created_at = 0 }
      ∷ [];
  route_legs =
      record {
        id = 31;
        route_id = 100;
        from_stop_id = 1;
        to_stop_id = 2;
        sequence = 1;
        fare_cents = pos 900;
        distance_meters = none;
        fare_estimated = false;
        created_at = 0;
      }
      ∷ [];
  route_geometries = [];
}

abbrev start : Session
start = record { pool = corridor; tx = corridor; touched = []; clock = 4 }

issuer-IsFilled : IsFilled issuer
issuer-IsFilled i buf h = ground arith

issuer-Draws : Draws issuer
unfolding generate_code
issuer-Draws i = (_, refl)

abbrev caller : Claims
caller = record {
  user_id = 7;
  role = role_commuter;
  issued_at = 0;
  expires_at = 9000;
  subject = [];
}

abbrev wish : IssuePassRequest
wish = record { route_id = 100 ∷ []; from_stop_id = 1 ∷ []; to_stop_id = 2 ∷ [] }

issue_pass-Ride_example :
    IsUnchanged issuer corridor (issue_pass issuer (some caller) (some wish) start)
    ⊎ (rt : Route) × (find? (λ (x : Route). x.id == 100) corridor.routes ≡ some rt)
      × Ride issuer corridor 7 1 2 100 rt (issue_pass issuer (some caller) (some wish) start)
issue_pass-Ride_example =
    issue_pass-Ride issuer issuer-IsFilled caller wish 100 1 2 start refl refl refl

abbrev one_ride : PassPayload
one_ride = payload_of issuer 7 100 1 2 (pos 900)

-- The code of the first attempt, "0", is taken; that of the second, "1", is not.
sign_and_store-Issues_example :
    (i : ℕ) × ((sign_and_store issuer one_ride start).0
      ≡ reply 201 (response_of issuer one_ride (bytes "n" ++ 46 ∷ bytes "m") (issuer-Draws i).0))
unfolding sign sign_bytes text_eq issuer-Draws
sign_and_store-Issues_example =
    sign_and_store-Issues issuer (λ n. refl) issuer-IsFilled issuer-Draws one_ride
      (bytes "n" ++ 46 ∷ bytes "m") 1 start refl (omega arith) refl
