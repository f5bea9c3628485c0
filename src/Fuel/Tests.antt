-- ===== src/Fuel/Tests.antt =====
-- A pump session of 300 on a vehicle with a quota of 1000 (backend/internal/fuel/viu_mock.go).
use sesfikile.Base.{find?, subst, true, false, ◌≡◌, refl, none, some, ◌⊎◌, [], ◌∷◌}
use sesfikile.Base.Int.{pos, ◌+ℤ◌, ◌-ℤ◌}
use sesfikile.Base.Word.{i64}
use sesfikile.Fuel.Models.{reserved, VehicleQuota, available_cents}
use sesfikile.Base.Text.{bytes}
use sesfikile.Identity.Tokens.{Claims}
use sesfikile.Fuel.Repo.{is_consistent, is_quota_of, update_quota, no_quota, vehicle_quota_for}
use sesfikile.Fuel.Handlers.{quota_response_from, serve_vehicle_quota, serve_confirm_pump}
use sesfikile.Fuel.Handlers.Replies.{IsSettled, IsUnsettled, serve_confirm_pump-Outcome}
use sesfikile.Fuel.Pump.{
  ConfirmResult, denied, settle_and_commit, confirm_pump, reserve_and_commit, insert_authorization,
  authorize_pump,
}
use sesfikile.Fuel.Pump.Inserting.{AuthorizeFailure, Decided}
use sesfikile.Fuel.Pump.Reserving.{authorize_pump-Ensures}
use sesfikile.Fuel.Pump.Twice.{confirm_pump_twice}
use sesfikile.Database.Schema.{Db}
use sesfikile.Database.Session.{
  Env, Session, ok, pure, catch, ◌>>=◌, query, exec, begin, commit, all_balanced, raise_if,
}
use sesfikile.Database.Ensures.{Ensures, Aborts}
use sesfikile.Http.{reply, answer, attempt, parsed, Uuid}

abbrev owner : Claims
owner = record { user_id = 40; role = bytes "owner"; issued_at = 0; expires_at = 100; subject = [] }

instance abbrev healthy : Env
healthy = record { fails = λ n. false; new_id = λ n. n; now = λ n. n; collates = λ a b. true }

abbrev quota : VehicleQuota
quota = record {
  vehicle_id = 21;
  owner_user_id = 22;
  quota_cents = pos 1000;
  reserved_cents = pos 300;
  used_cents = pos 0;
  updated_at = 0;
}

abbrev depot : Db
depot = record {
  drivers = [];
  vehicles = [];
  vehicle_assignments = [];
  accounts = [];
  ledger_transactions = [];
  ledger_postings = [];
  vehicle_fuel_quotas = quota ∷ [];
  fuel_authorizations =
      record {
        id = 5;
        vehicle_id = 21;
        litres = 12000;
        amount_cents = pos 300;
        status = reserved;
        created_at = 0;
        confirmed_at = none;
      }
      ∷ [];
  boarding_pass_codes = [];
  users = [];
  stops = [];
  routes = [];
  route_legs = [];
  route_geometries = [];
}

abbrev start : Session
start = record { pool = depot; tx = depot; touched = []; clock = 0 }

abbrev settled : ConfirmResult
settled = record { already_confirmed = false; vehicle_id = 21; amount_cents = pos 300 }

-- An id is the first byte of its text.
abbrev short_ids : Uuid
short_ids = record { parse = λ t. elim t [ [] ↦ none | c ∷ rest ↦ some c ]; show = λ n. n ∷ [] }

serve_confirm_pump-Outcome_example :
    IsSettled short_ids 5 depot (serve_confirm_pump short_ids (some (5 ∷ [])) start)
    ⊎ IsUnsettled short_ids 5 depot (serve_confirm_pump short_ids (some (5 ∷ [])) start)
serve_confirm_pump-Outcome_example = serve_confirm_pump-Outcome short_ids (5 ∷ []) 5 start refl

-- A vehicle of nobody's is shown to everyone.
unfunded_is_shown :
    (serve_vehicle_quota short_ids (some owner) (33 ∷ []) start).0
    ≡ reply 200 (quota_response_from short_ids (no_quota 33))
unfolding serve_vehicle_quota vehicle_quota_for quota_response_from query parsed attempt answer
unfunded_is_shown = refl

confirm-succeeds : (confirm_pump 5 start).0 ≡ ok settled
unfolding confirm_pump settle_and_commit update_quota pure catch ◌>>=◌ query exec begin commit
    all_balanced ◌+ℤ◌ ◌-ℤ◌
confirm-succeeds = refl

confirm_pump_twice_example :
    (confirm_pump 5 (confirm_pump 5 start).1).1.pool ≡ (confirm_pump 5 start).1.pool
confirm_pump_twice_example =
    confirm_pump_twice 5 start (confirm_pump 5 start).1 settled confirm-succeeds refl

depot_is_consistent :
    (q : VehicleQuota)
    → find? (is_quota_of 21) depot.vehicle_fuel_quotas ≡ some q
    → is_consistent q ≡ true
unfolding ◌+ℤ◌
depot_is_consistent q e = subst (λ x. is_consistent x ≡ true) {x = quota} {y = q} (cc e) refl

authorize_pump-Ensures_example :
    Ensures
      (Aborts depot (AuthorizeFailure 21 8000 (pos 200) depot healthy 2))
      (Decided 21 8000 (pos 200) depot 2)
      (authorize_pump 21 8000 (pos 200))
      start
authorize_pump-Ensures_example =
    authorize_pump-Ensures 21 8000 (pos 200) start (λ q e. depot_is_consistent q e)

-- 700 are available, so 200 can be reserved, and 800 cannot.
authorize-succeeds :
    (authorize_pump 21 8000 (pos 200) start).0
    ≡ ok (record { authorized = true; reason = []; auth_reference = 2; max_amount_cents = pos 200 })
unfolding authorize_pump reserve_and_commit insert_authorization update_quota available_cents i64
    raise_if pure ◌>>=◌ query exec begin commit all_balanced ◌+ℤ◌ ◌-ℤ◌
authorize-succeeds = refl

authorize-is_denied :
    (authorize_pump 21 8000 (pos 800) start).0
    ≡ ok (denied (bytes "requested amount exceeds available fuel quota") (pos 700))
unfolding authorize_pump available_cents i64 raise_if pure ◌>>=◌ query begin ◌+ℤ◌ ◌-ℤ◌
authorize-is_denied = refl
