-- ===== src/Fuel/Pump.antt =====
-- backend/internal/fuel/viu_mock.go: a pump session is authorized, and then confirmed.
pub mod Rows
pub mod Sessions
pub mod Twice
pub mod Inserting
pub mod Reserving
use sesfikile.Base.{
  ℕ, ◌^◌, Bool, true, false, Option, none, some, [], ◌∷◌, ◌++◌, map, any, find?, leb, ◌==◌, ◌||◌,
  if◌then◌else◌,
}
use sesfikile.Base.Int.{ℤ, pos, ◌+ℤ◌, ◌-ℤ◌, ltb_ℤ, leb_ℤ}
use sesfikile.Base.Text.{Text, bytes}
use sesfikile.Fuel.Models.{
  AuthorizationStatus, reserved, confirmed, VehicleQuota, available_cents, Authorization,
}
use sesfikile.Fuel.Repo.{is_quota_of, update_quota, with_quotas}
use sesfikile.Wallet.Accounts.{scan, missing_to_not_found}
use sesfikile.Database.Schema.{Db}
use sesfikile.Database.Session.{
  Env, constraint, unique_violation, invalid_amount, Result, ok, err, Action, pure, raise_if, catch,
  ◌>>=◌, ◌>>◌, on_tx, query, exec, begin, commit,
}

pub record AuthResult : Type 0 where
  pub authorized : Bool
  pub reason : Text
  pub auth_reference : ℕ
  pub max_amount_cents : ℤ

pub record ConfirmResult : Type 0 where
  pub already_confirmed : Bool
  pub vehicle_id : ℕ
  pub amount_cents : ℤ

abbrev pub denied : Text → ℤ → AuthResult
denied reason amount = record {
  authorized = false;
  reason = reason;
  auth_reference = 0;
  max_amount_cents = amount;
}

abbrev pub has_reference : ℕ → Authorization → Bool
has_reference id a = a.id == id

abbrev pub new_authorization : ℕ → ℕ → ℤ → ℕ → ℕ → Authorization
new_authorization vehicle litres amount id now = record {
  id = id;
  vehicle_id = vehicle;
  litres = litres;
  amount_cents = amount;
  status = reserved;
  created_at = now;
  confirmed_at = none;
}

-- The CHECKs of fuel_authorizations; `litres` is NUMERIC(10,3), in thousandths.
unfoldable pub insert_authorization : ℕ → ℕ → ℤ → ℕ → ℕ → Db → Result (ℕ × Db)
insert_authorization vehicle litres amount id now d =
    if any (has_reference id) d.fuel_authorizations
    then err unique_violation
    else if litres == 0 || leb (10 ^ 10) litres || leb_ℤ amount (pos 0)
    then err constraint
    else ok (
      id,
      record d {
        fuel_authorizations =
            d.fuel_authorizations ++ new_authorization vehicle litres amount id now ∷ [];
      },
    )

abbrev pub reserve : ℤ → ℕ → VehicleQuota → VehicleQuota
reserve amount now q = record q { reserved_cents = q.reserved_cents +ℤ amount; updated_at = now }

abbrev pub settle_quota : ℤ → ℕ → VehicleQuota → VehicleQuota
settle_quota amount now q = record q {
  reserved_cents = q.reserved_cents -ℤ amount;
  used_cents = q.used_cents +ℤ amount;
  updated_at = now;
}

abbrev pub set_confirmed : ℕ → ℕ → Authorization → Authorization
set_confirmed id now a =
    if has_reference id a then record a { status = confirmed; confirmed_at = some now } else a

module _ ⦃env : Env⦄ where
  -- Behind the checks: the reservation and its commit.
  unfoldable pub reserve_and_commit : (vehicle litres : ℕ) → ℤ → Action AuthResult
  reserve_and_commit vehicle_id litres amount_cents = do
    auth_id ← exec on_tx (insert_authorization vehicle_id litres amount_cents)
    exec on_tx (λ id now d.
        with_quotas d tt (update_quota vehicle_id (reserve amount_cents now) d.vehicle_fuel_quotas))
    commit
    pure (record {
      authorized = true;
      reason = [];
      auth_reference = auth_id;
      max_amount_cents = amount_cents;
    })

  abbrev pub authorize_against : (vehicle litres : ℕ) → ℤ → Option VehicleQuota → Action AuthResult
  authorize_against vehicle_id litres amount_cents none =
      pure (denied (bytes "no fuel quota allocated for this vehicle") (pos 0))
  authorize_against vehicle_id litres amount_cents (some q) =
      if ltb_ℤ (available_cents q) amount_cents
      then pure (denied (bytes "requested amount exceeds available fuel quota") (available_cents q))
      else reserve_and_commit vehicle_id litres amount_cents

  unfoldable pub authorize_pump : (vehicle litres : ℕ) → ℤ → Action AuthResult
  authorize_pump vehicle_id litres amount_cents = do
    raise_if (leb_ℤ amount_cents (pos 0)) invalid_amount
    begin
    found ← query on_tx (λ d. ok (find? (is_quota_of vehicle_id) d.vehicle_fuel_quotas))
    authorize_against vehicle_id litres amount_cents found

  unfoldable pub settle_and_commit : Authorization → Action ConfirmResult
  settle_and_commit a = do
    exec on_tx (λ id now d.
        with_quotas d tt
          (update_quota a.vehicle_id (settle_quota a.amount_cents now) d.vehicle_fuel_quotas))
    exec on_tx (λ id now d.
        ok (
          tt,
          record d { fuel_authorizations = map (set_confirmed a.id now) d.fuel_authorizations },
        ))
    commit
    pure (record {
      already_confirmed = false;
      vehicle_id = a.vehicle_id;
      amount_cents = a.amount_cents;
    })

  abbrev pub confirm_found : Authorization → AuthorizationStatus → Action ConfirmResult
  confirm_found a confirmed = pure (record {
    already_confirmed = true;
    vehicle_id = a.vehicle_id;
    amount_cents = a.amount_cents;
  })
  confirm_found a reserved = settle_and_commit a

  unfoldable pub confirm_pump : ℕ → Action ConfirmResult
  confirm_pump auth_reference = do
    begin
    a ←
        catch (query on_tx (λ d. scan (find? (has_reference auth_reference) d.fuel_authorizations)))
          missing_to_not_found
    confirm_found a a.status
