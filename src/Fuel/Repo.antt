-- ===== src/Fuel/Repo.antt =====
-- backend/internal/fuel/repo.go: money withheld for fuel, and the quotas that earmark it.
use sesfikile.Base.{
  ℕ, Bool, none, some, List, [], ◌∷◌, ◌++◌, map, any, find?, ◌==◌, ◌&&◌, not, if◌then◌else◌,
}
use sesfikile.Base.Int.{ℤ, pos, ◌+ℤ◌, ◌*ℤ◌, ◌/ℤ◌, ltb_ℤ, leb_ℤ}
use sesfikile.Base.Word.{i64, fits64}
use sesfikile.Identity.Models.{Vehicle}
use sesfikile.Fuel.Models.{VehicleQuota}
use sesfikile.Wallet.Models.{
  owner_revenue, fuel_account, fuel_allocation, allocation_details, LedgerTransaction,
}
use sesfikile.Wallet.Accounts.{
  scan_int64, missing_to_not_found, get_or_create_account, account_balance,
}
use sesfikile.Wallet.Repo.{internal_transfer}
use sesfikile.Database.Schema.{Db}
use sesfikile.Database.Session.{
  Env, no_rows, constraint, invalid_amount, nothing_to_allocate, not_owners_vehicle,
  insufficient_funds, Result, ok, err, Action, pure, raise_if, catch, ◌>>=◌, ◌>>◌, Querier, on_pool,
  on_tx, query, exec, begin, commit,
}

-- The CHECKs of vehicle_fuel_quotas, and the range of its BIGINT columns.
abbrev pub is_consistent : VehicleQuota → Bool
is_consistent q =
    leb_ℤ (pos 0) q.quota_cents
    && leb_ℤ (pos 0) q.reserved_cents
    && leb_ℤ (pos 0) q.used_cents
    && leb_ℤ (q.reserved_cents +ℤ q.used_cents) q.quota_cents
    && fits64 q.quota_cents

abbrev pub is_quota_of : ℕ → VehicleQuota → Bool
is_quota_of vehicle q = q.vehicle_id == vehicle

-- `UPDATE vehicle_fuel_quotas … WHERE vehicle_id = $1`: a row that fails a CHECK refuses it all.
unfoldable pub update_quota :
    ℕ → (VehicleQuota → VehicleQuota) → List VehicleQuota → Result (List VehicleQuota)
update_quota vehicle f rows =
    if any (λ q. is_quota_of vehicle q && not (is_consistent (f q))) rows
    then err constraint
    else ok (map (λ q. if is_quota_of vehicle q then f q else q) rows)

-- `COALESCE(SUM(quota_cents), 0)` of an owner.
unfoldable pub earmarked : ℕ → List VehicleQuota → ℤ
earmarked owner [] = pos 0
earmarked owner (q ∷ rows) =
    if q.owner_user_id == owner then q.quota_cents +ℤ earmarked owner rows else earmarked owner rows

abbrev pub new_quota : ℕ → ℕ → ℤ → ℕ → VehicleQuota
new_quota vehicle owner amount now = record {
  vehicle_id = vehicle;
  owner_user_id = owner;
  quota_cents = amount;
  reserved_cents = pos 0;
  used_cents = pos 0;
  updated_at = now;
}

abbrev pub raise_quota : ℤ → ℕ → VehicleQuota → VehicleQuota
raise_quota amount now q = record q { quota_cents = q.quota_cents +ℤ amount; updated_at = now }

abbrev pub with_quotas : {A : Type 0} → Db → A → Result (List VehicleQuota) → Result (A × Db)
with_quotas d a (ok rows) = ok (a, record d { vehicle_fuel_quotas = rows })
with_quotas d a (err e) = err e

-- `INSERT … ON CONFLICT (vehicle_id) DO UPDATE … RETURNING …`
unfoldable pub upsert_quota : ℕ → ℕ → ℤ → ℕ → Db → Result (VehicleQuota × Db)
upsert_quota vehicle owner amount now d = elim (find? (is_quota_of vehicle) d.vehicle_fuel_quotas) [
  | none ↦
      if is_consistent (new_quota vehicle owner amount now)
      then ok (
        new_quota vehicle owner amount now,
        record d {
          vehicle_fuel_quotas = d.vehicle_fuel_quotas ++ new_quota vehicle owner amount now ∷ [];
        },
      )
      else err constraint
  | some q ↦
      with_quotas d (raise_quota amount now q)
        (update_quota vehicle (raise_quota amount now) d.vehicle_fuel_quotas)
]

abbrev pub no_quota : ℕ → VehicleQuota
no_quota vehicle = record {
  vehicle_id = vehicle;
  owner_user_id = 0;
  quota_cents = pos 0;
  reserved_cents = pos 0;
  used_cents = pos 0;
  updated_at = 0;
}

module _ ⦃env : Env⦄ where
  unfoldable pub allocate : ℕ → ℤ → Action (LedgerTransaction × ℤ)
  allocate owner_user_id withhold_pct = do
    revenue_acc ← get_or_create_account on_pool (some owner_user_id) owner_revenue
    revenue_balance ← account_balance on_pool revenue_acc.id
    let amount_cents = i64 (revenue_balance *ℤ withhold_pct) /ℤ 100
    raise_if (leb_ℤ amount_cents (pos 0)) nothing_to_allocate
    txn ←
        internal_transfer owner_user_id owner_revenue fuel_account amount_cents fuel_allocation
          (allocation_details withhold_pct revenue_balance amount_cents)
    pure (txn, amount_cents)

  unfoldable pub balance : ℕ → Action ℤ
  balance owner_user_id = do
    acc ← get_or_create_account on_pool (some owner_user_id) fuel_account
    account_balance on_pool acc.id

  unfoldable pub vehicle_owner : Querier → ℕ → Action ℕ
  vehicle_owner q vehicle_id =
      catch
        (query q (λ d. elim (find? (λ (v : Vehicle). v.id == vehicle_id) d.vehicles) [
          | none ↦ err no_rows
          | some v ↦ ok v.owner_user_id
        ]))
        missing_to_not_found

  unfoldable pub fund_vehicle_quota : (owner vehicle : ℕ) → ℤ → Action VehicleQuota
  fund_vehicle_quota owner_user_id vehicle_id amount_cents = do
    raise_if (leb_ℤ amount_cents (pos 0)) invalid_amount
    begin
    owner_of_vehicle ← vehicle_owner on_tx vehicle_id
    raise_if (not (owner_of_vehicle == owner_user_id)) not_owners_vehicle
    fuel_acc ← get_or_create_account on_tx (some owner_user_id) fuel_account
    fuel_balance ← account_balance on_tx fuel_acc.id
    already_earmarked ←
        query on_tx (λ d. scan_int64 (earmarked owner_user_id d.vehicle_fuel_quotas))
    raise_if (ltb_ℤ fuel_balance (i64 (already_earmarked +ℤ amount_cents))) insufficient_funds
    q ← exec on_tx (λ id now d. upsert_quota vehicle_id owner_user_id amount_cents now d)
    commit
    pure q

  unfoldable pub vehicle_quota_for : ℕ → Action VehicleQuota
  vehicle_quota_for vehicle_id = query on_pool (λ d.
      elim (find? (is_quota_of vehicle_id) d.vehicle_fuel_quotas) [
        | none ↦ ok (no_quota vehicle_id)
        | some q ↦ ok q
      ])
