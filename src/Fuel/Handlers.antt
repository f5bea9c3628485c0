-- ===== src/Fuel/Handlers.antt =====
-- backend/internal/fuel/handlers.go. A body is what encoding/json decodes, or nothing; the claims
-- are those that RequireAuth attached, if it did.
pub mod Replies
use sesfikile.Base.{ℕ, Bool, not, Option, none, some, [], ◌==◌, ◌&&◌, if◌then◌else◌}
use sesfikile.Base.Int.{ℤ, pos, leb_ℤ}
use sesfikile.Base.Text.{Text}
use sesfikile.Identity.Tokens.{Claims}
use sesfikile.Fuel.Models.{VehicleQuota, available_cents}
use sesfikile.Fuel.Repo.{allocate, balance, fund_vehicle_quota, vehicle_quota_for}
use sesfikile.Fuel.Pump.{AuthResult, ConfirmResult, authorize_pump, confirm_pump}
use sesfikile.Database.Session.{
  Env, Error, nothing_to_allocate, not_found, not_owners_vehicle, insufficient_funds,
}
use sesfikile.Http.{
  Reply, reply, refuse, Handler, answer, attempt, parsed, missing_or_failed, failed, Uuid,
}

-- The float operations on litres: `l > 0`, `int64(l * float64(p))`, `float64(a) / float64(p)`, and
-- the thousandths that the column `litres` keeps.
pub record Litres : Type 0 where
  pub is_positive : ℕ → Bool
  pub cents_of : (litres : ℕ) (price_per_litre_cents : ℤ) → ℤ
  pub litres_of : (amount_cents price_per_litre_cents : ℤ) → ℕ
  pub stored : ℕ → ℕ

pub record AllocateResponse : Type 0 where
  pub transaction_id : Text
  pub allocated_cents : ℤ
  pub withhold_pct : ℤ

pub record BalanceResponse : Type 0 where
  pub balance_cents : ℤ

pub record FundQuotaRequest : Type 0 where
  pub vehicle_id : Text
  pub amount_cents : ℤ

pub record QuotaResponse : Type 0 where
  pub vehicle_id : Text
  pub quota_cents : ℤ
  pub reserved_cents : ℤ
  pub used_cents : ℤ
  pub available_cents : ℤ

pub record AuthorizeRequest : Type 0 where
  pub vehicle_id : Text
  pub litres : Option ℕ
  pub amount_cents : Option ℤ

pub record AuthorizeResponse : Type 0 where
  pub authorized : Bool
  pub reason : Text
  pub auth_reference : Text
  pub max_amount_cents : ℤ

pub record ConfirmResponse : Type 0 where
  pub vehicle_id : Text
  pub amount_cents : ℤ
  pub already_confirmed : Bool

abbrev pub allocate_refusal : {A : Type 0} → Error → Reply A
allocate_refusal nothing_to_allocate =
    refuse 422 "owner_revenue balance is zero, nothing to allocate"
allocate_refusal e = refuse 500 "failed to allocate fuel funds"

abbrev pub fund_refusal : {A : Type 0} → Error → Reply A
fund_refusal not_found = refuse 404 "vehicle not found"
fund_refusal not_owners_vehicle = refuse 403 "vehicle does not belong to this owner"
fund_refusal insufficient_funds = refuse 422 "amount exceeds available fuel_account balance"
fund_refusal e = refuse 500 "failed to fund vehicle fuel quota"

module _ (uuid : Uuid) where
  unfoldable pub quota_response_from : VehicleQuota → QuotaResponse
  quota_response_from q = record {
    vehicle_id = uuid.show q.vehicle_id;
    quota_cents = q.quota_cents;
    reserved_cents = q.reserved_cents;
    used_cents = q.used_cents;
    available_cents = available_cents q;
  }

  -- A denial has no reference.
  abbrev pub authorize_response : AuthResult → AuthorizeResponse
  authorize_response result = record {
    authorized = result.authorized;
    reason = result.reason;
    auth_reference = if result.authorized then uuid.show result.auth_reference else [];
    max_amount_cents = result.max_amount_cents;
  }

  abbrev pub confirm_response : ConfirmResult → ConfirmResponse
  confirm_response result = record {
    vehicle_id = uuid.show result.vehicle_id;
    amount_cents = result.amount_cents;
    already_confirmed = result.already_confirmed;
  }

  module _ ⦃env : Env⦄ where
    unfoldable pub serve_allocate : ℤ → Option Claims → Handler AllocateResponse
    serve_allocate withhold_pct auth = parsed auth (refuse 401 "unauthorized") λ claims.
        attempt (allocate claims.user_id withhold_pct) allocate_refusal (λ (txn, amount). answer (
          reply 201 (record {
            transaction_id = uuid.show txn.id;
            allocated_cents = amount;
            withhold_pct = withhold_pct;
          })))

    unfoldable pub serve_balance : Option Claims → Handler BalanceResponse
    serve_balance auth = parsed auth (refuse 401 "unauthorized") λ claims.
        attempt (balance claims.user_id) (failed "failed to load fuel balance")
          λ cents. answer (reply 200 (record { balance_cents = cents }))

    unfoldable pub serve_fund_vehicle_quota :
        Option Claims → Option FundQuotaRequest → Handler QuotaResponse
    serve_fund_vehicle_quota auth body = parsed auth (refuse 401 "unauthorized") λ claims.
        parsed body (refuse 400 "invalid request body") λ req.
          parsed (uuid.parse req.vehicle_id) (refuse 400 "vehicle_id must be a valid uuid")
            λ vehicle.
              if leb_ℤ req.amount_cents (pos 0)
              then answer (refuse 400 "amount_cents must be positive")
              else attempt (fund_vehicle_quota claims.user_id vehicle req.amount_cents) fund_refusal
                  λ q. answer (reply 201 (quota_response_from q))

    -- `q.OwnerUserID != uuid.Nil && q.OwnerUserID != claims.UserID`
    abbrev pub is_other_owner : VehicleQuota → ℕ → Bool
    is_other_owner q user_id = not (q.owner_user_id == 0) && not (q.owner_user_id == user_id)

    unfoldable pub serve_vehicle_quota : Option Claims → Text → Handler QuotaResponse
    serve_vehicle_quota auth param = parsed auth (refuse 401 "unauthorized") λ claims.
        parsed (uuid.parse param) (refuse 400 "vehicle_id query param must be a valid uuid")
          λ vehicle.
            attempt (vehicle_quota_for vehicle) (failed "failed to load vehicle fuel quota") λ q.
              if is_other_owner q claims.user_id
              then answer (refuse 403 "vehicle does not belong to this owner")
              else answer (reply 200 (quota_response_from q))

    unfoldable pub authorize_amount : Litres → (vehicle litres : ℕ) → ℤ → Handler AuthorizeResponse
    authorize_amount float vehicle litres amount_cents =
        attempt (authorize_pump vehicle (float.stored litres) amount_cents)
          (failed "failed to authorize pump")
          λ result. answer (reply 200 (authorize_response result))

    -- `switch` on which of litres and cents is given.
    unfoldable pub authorize_given :
        Litres → (price : ℤ) (vehicle : ℕ) → Option ℕ → Option ℤ → Handler AuthorizeResponse
    authorize_given float price vehicle (some litres) (some amount) =
        answer (refuse 400 "provide either litres or amount_cents, not both")
    authorize_given float price vehicle (some litres) none =
        if not (float.is_positive litres)
        then answer (refuse 400 "litres must be positive")
        else authorize_amount float vehicle litres (float.cents_of litres price)
    authorize_given float price vehicle none (some amount) =
        if leb_ℤ amount (pos 0)
        then answer (refuse 400 "amount_cents must be positive")
        else authorize_amount float vehicle (float.litres_of amount price) amount
    authorize_given float price vehicle none none =
        answer (refuse 400 "provide either litres or amount_cents")

    unfoldable pub serve_authorize_pump :
        Litres → (price : ℤ) → Option AuthorizeRequest → Handler AuthorizeResponse
    serve_authorize_pump float price body = parsed body (refuse 400 "invalid request body") λ req.
        parsed (uuid.parse req.vehicle_id) (refuse 400 "vehicle_id must be a valid uuid")
          λ vehicle. authorize_given float price vehicle req.litres req.amount_cents

    unfoldable pub serve_confirm_pump : Option Text → Handler ConfirmResponse
    serve_confirm_pump body = parsed body (refuse 400 "invalid request body") λ reference.
        parsed (uuid.parse reference) (refuse 400 "auth_reference must be a valid uuid") λ auth_ref.
          attempt (confirm_pump auth_ref)
            (missing_or_failed "unknown auth_reference" "failed to confirm pump session")
            λ result. answer (reply 200 (confirm_response result))
