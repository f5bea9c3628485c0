-- ===== src/Wallet/Handlers.antt =====
-- backend/internal/wallet/handlers.go. A body is what encoding/json decodes, or nothing; the
-- claims are those that RequireAuth attached, if it did.
pub mod Charging
use sesfikile.Base.{
  ℕ, zero, suc, Bool, true, false, Option, none, some, List, [], ◌∷◌, ltb, if◌then◌else◌,
}
use sesfikile.Base.Int.{ℤ, pos, negsuc, leb_ℤ}
use sesfikile.Base.Text.{Text, is_empty, text_eq}
use sesfikile.Identity.Models.{Role, role_commuter, role_driver, role_owner, Vehicle}
use sesfikile.Identity.Tokens.{Claims}
use sesfikile.Identity.Repo.{get_vehicle_by_id}
use sesfikile.Wallet.Models.{
  AccountType, commuter_wallet, driver_earnings, owner_revenue, TransactionKind, Account,
  LedgerTransaction, Transaction,
}
use sesfikile.Wallet.Accounts.{get_or_create_account, account_balance}
use sesfikile.Wallet.Split.{FareSplit}
use sesfikile.Wallet.Repo.{Charged, top_up, charge_fare}
use sesfikile.Wallet.Listing.{list_transactions_for_account}
use sesfikile.Database.Session.{
  Env, Error, insufficient_funds, no_active_driver, Session, Result, ok, err, on_pool,
}
use sesfikile.Http.{Reply, reply, refuse, Handler, answer, attempt, parsed, failed, Uuid}

unfoldable pub account_type_for_role : Role → Option AccountType
account_type_for_role role =
    if text_eq role role_commuter
    then some commuter_wallet
    else if text_eq role role_driver
    then some driver_earnings
    else if text_eq role role_owner
    then some owner_revenue
    else none

pub record TopupResponse : Type 0 where
  pub transaction_id : Text
  pub balance_cents : ℤ

pub record BalanceResponse : Type 0 where
  pub account_type : AccountType
  pub balance_cents : ℤ

pub record ChargeFareRequest : Type 0 where
  pub commuter_id : Text
  pub vehicle_id : Text
  pub fare_cents : ℤ
  pub idempotency_key : Text

pub record ChargeFareResponse : Type 0 where
  pub transaction_id : Text
  pub replayed : Bool
  pub fare_cents : ℤ
  pub platform_cents : ℤ
  pub driver_cents : ℤ
  pub owner_cents : ℤ

pub record TransactionResponse : Type 0 where
  pub transaction_id : Text
  pub kind : TransactionKind
  pub amount_cents : ℤ
  pub occurred_at : ℕ
  pub vehicle_id : Option Text
  pub vehicle_registration : Option Text

pub record TransactionsPageResponse : Type 0 where
  pub transactions : List TransactionResponse
  pub total : ℕ
  pub limit : ℕ
  pub offset : ℕ

abbrev pub charge_refusal : {A : Type 0} → Error → Reply A
charge_refusal insufficient_funds = refuse 402 "insufficient funds"
charge_refusal no_active_driver = refuse 422 "vehicle has no active driver assignment"
charge_refusal e = refuse 500 "failed to process fare charge"

-- The page size that is asked for, between 1 and 200, and the offset; `atoi` is strconv.Atoi.
unfoldable pub page_limit : (atoi : Text → Option ℤ) → Text → ℕ
page_limit atoi value =
    let asked : ℕ = elim (if is_empty value then none else atoi value) [
      | none ↦ 50
      | some n ↦ elim n [ pos k ↦ if ltb 0 k then k else 50 | negsuc k ↦ 50 ]
    ] in
    if ltb 200 asked then 200 else asked

unfoldable pub page_offset : (atoi : Text → Option ℤ) → Text → ℕ
page_offset atoi value = elim (if is_empty value then none else atoi value) [
  | none ↦ 0
  | some n ↦ elim n [ pos k ↦ k | negsuc k ↦ 0 ]
]

module _ (uuid : Uuid) where
  abbrev pub charge_response : ℤ → Charged → ChargeFareResponse
  charge_response fare_cents (txn, split, replayed) = record {
    transaction_id = uuid.show txn.id;
    replayed = replayed;
    fare_cents = fare_cents;
    platform_cents = split.platform_cents;
    driver_cents = split.driver_cents;
    owner_cents = split.owner_cents;
  }

  -- 200 for a replay, 201 for a charge.
  unfoldable pub answer_charge : ℤ → Charged → Handler ChargeFareResponse
  answer_charge fare_cents (txn, split, replayed) =
      answer
        (reply (if replayed then 200 else 201) (charge_response fare_cents (txn, split, replayed)))

  module _ ⦃env : Env⦄ where
    unfoldable pub serve_topup : Option Claims → Option ℤ → Handler TopupResponse
    serve_topup auth body = parsed auth (refuse 401 "unauthorized") λ claims.
        parsed body (refuse 400 "invalid request body") λ amount_cents.
          if leb_ℤ amount_cents (pos 0)
          then answer (refuse 400 "amount_cents must be positive")
          else attempt (top_up claims.user_id amount_cents) (failed "failed to process top-up")
              (λ (txn, balance).
                answer (
                  reply 201
                    (record { transaction_id = uuid.show txn.id; balance_cents = balance })))

    unfoldable pub serve_balance : Option Claims → Handler BalanceResponse
    serve_balance auth = parsed auth (refuse 401 "unauthorized") λ claims.
        parsed (account_type_for_role claims.role) (refuse 403 "role has no wallet account")
          λ account_type.
            attempt (get_or_create_account on_pool (some claims.user_id) account_type)
              (failed "failed to load account")
              λ acc.
                attempt (account_balance on_pool acc.id) (failed "failed to compute balance")
                  λ balance.
                    answer
                      (reply 200 (record { account_type = account_type; balance_cents = balance }))

    -- Behind the checks of the body.
    unfoldable pub charge_checked :
        ℤ → ℤ → ChargeFareRequest → (commuter vehicle : ℕ) → Handler ChargeFareResponse
    charge_checked platform_pct driver_pct req commuter vehicle =
        if leb_ℤ req.fare_cents (pos 0)
        then answer (refuse 400 "fare_cents must be positive")
        else if is_empty req.idempotency_key
        then answer (refuse 400 "idempotency_key is required")
        else attempt
            (charge_fare commuter vehicle req.fare_cents req.idempotency_key platform_pct
              driver_pct)
            charge_refusal (answer_charge req.fare_cents)

    unfoldable pub serve_charge_fare : ℤ → ℤ → Option ChargeFareRequest → Handler ChargeFareResponse
    serve_charge_fare platform_pct driver_pct body =
        parsed body (refuse 400 "invalid request body") λ req.
          parsed (uuid.parse req.commuter_id) (refuse 400 "commuter_id must be a valid uuid")
            λ commuter.
              parsed (uuid.parse req.vehicle_id) (refuse 400 "vehicle_id must be a valid uuid")
                λ vehicle. charge_checked platform_pct driver_pct req commuter vehicle

    -- A vehicle that cannot be read is shown without its registration.
    unfoldable pub registration_of : Option ℕ → Session → Option Text × Session
    registration_of none s = (none, s)
    registration_of (some vehicle) s =
        let (r, s') = get_vehicle_by_id vehicle s in
        elim r [ ok v ↦ (some v.registration, s') | err e ↦ (none, s') ]

    -- `for _, t := range txns`
    unfoldable pub transaction_responses :
        List Transaction → Session → List TransactionResponse × Session
    transaction_responses [] s = ([], s)
    transaction_responses (t ∷ rest) s =
        let (registration, s₁) = registration_of t.vehicle_id s in
        let (resp, s₂) = transaction_responses rest s₁ in
        (
          record {
            transaction_id = uuid.show t.transaction_id;
            kind = t.kind;
            amount_cents = t.amount_cents;
            occurred_at = t.occurred_at;
            vehicle_id = elim t.vehicle_id [ none ↦ none | some v ↦ some (uuid.show v) ];
            vehicle_registration = registration;
          }
              ∷ resp,
          s₂,
        )

    unfoldable pub serve_transactions :
        (atoi : Text → Option ℤ)
        → (limit offset : Text) → Option Claims
        → Handler TransactionsPageResponse
    serve_transactions atoi limit offset auth = parsed auth (refuse 401 "unauthorized") λ claims.
        attempt (get_or_create_account on_pool (some claims.user_id) commuter_wallet)
          (failed "failed to load account")
          λ acc.
            attempt
              (list_transactions_for_account acc.id (page_limit atoi limit)
                (page_offset atoi offset))
              (failed "failed to load transactions")
              (λ (txns, total) s.
                let (resp, s') = transaction_responses txns s in
                answer
                  (reply 200 (record {
                    transactions = resp;
                    total = total;
                    limit = page_limit atoi limit;
                    offset = page_offset atoi offset;
                  }))
                  s')
