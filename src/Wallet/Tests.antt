-- ===== src/Wallet/Tests.antt =====
-- Runs of the ledger on a town with one vehicle and one rider, whose wallet holds 100.00
-- (backend/internal/wallet/repo.go).
use sesfikile.Base.{
  ℕ, true, false, ◌≡◌, refl, none, some, List, [], ◌∷◌, arith, inl, inr, Bool-cases, ◌==◌, ==_iff,
}
use sesfikile.Base.Int.{pos, negsuc, ◌+ℤ◌, ◌≤ℤ◌, int_laws}
use sesfikile.Base.Word.{fits64}
use sesfikile.Base.Text.{bytes, text_eq}
use sesfikile.Identity.Models.{kyc_verified, compliance_verified}
use sesfikile.Wallet.Models.{commuter_wallet, funding_source, fuel_account, topup, fuel_allocation}
use sesfikile.Wallet.Split.{split_fare}
use sesfikile.Wallet.Split.Shares.{Priced, FairShares, split_fare-FairShares}
use sesfikile.Wallet.Accounts.{balance_of}
use sesfikile.Wallet.Repo.{topup_note, owner_and_driver, top_up, internal_transfer, charge_fare}
use sesfikile.Wallet.Sums.{Balanced}
use sesfikile.Wallet.Transfers.{TopUpError, ToppedUp, Moved, top_up-Ensures}
use sesfikile.Wallet.Transfers.Internal.{TransferFailure, internal_transfer-Ensures}
use sesfikile.Wallet.Charges.{ChargeFailure, ChargeResult}
use sesfikile.Wallet.Charges.Outcome.{charge_fare-Ensures}
use sesfikile.Wallet.Charges.Success.{IsPayable, IsFresh, charge_fare_succeeds, charge_fare_once}
use sesfikile.Wallet.Invariant.{IsSound}
use sesfikile.Wallet.History.{Request, top_up_request, fare_request, serve, serve-IsSound}
use sesfikile.Wallet.Handlers.{ChargeFareRequest}
use sesfikile.Wallet.Listing.{list_transactions_for_account}
use sesfikile.Wallet.Listing.Pages.{IsListing, list_transactions_for_account-IsListing}
use sesfikile.Wallet.Models.{Transaction}
use sesfikile.Http.{Uuid}
use sesfikile.Base.{ℕ, List, length, take, drop, ◌≤◌, if◌then◌else◌, ◌==◌}
use sesfikile.Database.Ensures.{Faulty}
use sesfikile.Database.Session.{database}
use sesfikile.Database.Schema.{Db}
use sesfikile.Database.Session.{Env, Session, transaction_total}
use sesfikile.Database.Ensures.{Ensures, Aborts}

-- No call fails.
instance abbrev healthy : Env
healthy = record { fails = λ n. false; new_id = λ n. n; now = λ n. n; collates = λ a b. true }

abbrev town : Db
town = record {
  drivers =
      record {
        id = 11;
        user_id = 12;
        full_name = bytes "Thandi";
        prdp_number = bytes "P1";
        prdp_verified = true;
        id_number = bytes "8001";
        kyc_status = kyc_verified;
        created_at = 0;
        updated_at = 0;
      }
      ∷ [];
  vehicles =
      record {
        id = 21;
        owner_user_id = 22;
        registration = bytes "CA 1";
        capacity = 15;
        association_name = none;
        compliance_status = compliance_verified;
        created_at = 0;
        updated_at = 0;
      }
      ∷ [];
  vehicle_assignments =
      record {
        id = 31;
        vehicle_id = 21;
        driver_id = 11;
        active = true;
        created_at = 0;
        updated_at = 0;
      }
      ∷ [];
  accounts =
      record { id = 1; owner_user_id = some 7; type = commuter_wallet; created_at = 0 }
      ∷ record { id = 2; owner_user_id = none; type = funding_source; created_at = 0 }
      ∷ [];
  ledger_transactions =
      record {
        id = 5;
        kind = topup;
        idempotency_key = some (bytes "old");
        metadata = topup_note;
        created_at = 0;
      }
      ∷ [];
  ledger_postings =
      record {
        id = 41;
        transaction_id = 5;
        account_id = 2;
        amount_cents = negsuc 9999;
        created_at = 0;
      }
      ∷ record {
        id = 42;
        transaction_id = 5;
        account_id = 1;
        amount_cents = pos 10000;
        created_at = 0;
      }
      ∷ [];
  vehicle_fuel_quotas = [];
  fuel_authorizations = [];
  boarding_pass_codes = [];
  users = [];
  stops = [];
  routes = [];
  route_legs = [];
  route_geometries = [];
}

abbrev start : Session
start = record { pool = town; tx = town; touched = []; clock = 100 }

town-Balanced : Balanced town.ledger_postings
unfolding transaction_total ◌+ℤ◌
town-Balanced t = elim (Bool-cases (5 == t)) [ inl e ↦ rw e refl | inr e ↦ rw e refl ]

fare-Priced : Priced (pos 1250) (pos 10) (pos 25)
fare-Priced = record {
  fare_nonneg = omega arith;
  platform_nonneg = omega arith;
  driver_nonneg = omega arith;
  at_most_all = omega arith;
  in_range = omega arith;
}

town-in_range : (a : ℕ) → fits64 (balance_of a town.ledger_postings) ≡ true
unfolding balance_of ◌+ℤ◌
town-in_range a = elim (Bool-cases (1 == a)) [
  | inl e ↦ elim (Bool-cases (2 == a)) [ inl f ↦ rw (e, f) refl | inr f ↦ rw (e, f) refl ]
  | inr e ↦ elim (Bool-cases (2 == a)) [ inl f ↦ rw (e, f) refl | inr f ↦ rw (e, f) refl ]
]

town-IsPayable : IsPayable healthy 7 21 (pos 1250) (bytes "nonce") town
unfolding owner_and_driver balance_of text_eq
town-IsPayable = record {
  healthy = λ n. refl;
  keyed = refl;
  fresh = refl;
  owner = 22;
  driver = 12;
  assigned = assigned_town;
  wallet = record { id = 1; owner_user_id = some 7; type = commuter_wallet; created_at = 0 };
  has_wallet = refl;
  funded = funded_town;
  in_range = town-in_range;
}
  where
    assigned_town : owner_and_driver 21 town ≡ some (22, 12)
    assigned_town = refl

    funded_town : pos 1250 ≤ℤ balance_of 1 town.ledger_postings
    funded_town = omega int_laws

town-IsSound : IsSound town
unfolding balance_of
town-IsSound = record {
  balanced = town-Balanced;
  solvent = λ id n. elim (Bool-cases (2 == id)) [
    | inl e ↦ absurd (n.1.0 ((==_iff 2 id).0 e) refl)
    | inr e ↦ elim (Bool-cases (1 == id)) [
      | inl f ↦ rw (e, f) (omega int_laws)
      | inr f ↦ rw (e, f) (omega int_laws)
    ]
  ];
  once = λ key. ground arith;
}

split_fare-FairShares_example :
    FairShares (pos 1250) (pos 10) (pos 25) (split_fare (pos 1250) (pos 10) (pos 25))
split_fare-FairShares_example = split_fare-FairShares (pos 1250) (pos 10) (pos 25) fare-Priced

top_up-Ensures_example :
    Ensures (TopUpError 7 (pos 500) town) (ToppedUp 7 (pos 500) town) (top_up 7 (pos 500)) start
top_up-Ensures_example = top_up-Ensures 7 (pos 500) start (omega arith) (omega arith) town-Balanced

internal_transfer-Ensures_example :
    Ensures
      (Aborts town (TransferFailure healthy 7 commuter_wallet (pos 300) town))
      (λ t s'.
        (m : Moved (some 7) commuter_wallet (some 7) fuel_account (pos 300) t town s'.pool) × (pos 1
          ≤ℤ pos 300)
        × (pos 300 ≤ℤ balance_of m.source.id town.ledger_postings))
      (internal_transfer 7 commuter_wallet fuel_account (pos 300) fuel_allocation topup_note)
      start
internal_transfer-Ensures_example =
    internal_transfer-Ensures 7 commuter_wallet fuel_account (pos 300) fuel_allocation topup_note
      start (omega arith) town-Balanced

charge_fare-Ensures_example :
    Ensures
      (Aborts town (ChargeFailure healthy 7 21 (pos 1250) (bytes "nonce") town))
      (λ r s'.
        ChargeResult 7 21
          (pos 1250)
          (bytes "nonce")
          (split_fare (pos 1250) (pos 10) (pos 25))
          town
          r
          s'.pool)
      (charge_fare 7 21 (pos 1250) (bytes "nonce") (pos 10) (pos 25))
      start
charge_fare-Ensures_example =
    charge_fare-Ensures 7 21 (pos 1250) (bytes "nonce") (pos 10) (pos 25) start fare-Priced
      town-Balanced

charge_fare_succeeds_example :
    IsFresh (charge_fare 7 21 (pos 1250) (bytes "nonce") (pos 10) (pos 25) start).0
charge_fare_succeeds_example =
    charge_fare_succeeds 7 21 (pos 1250) (bytes "nonce") (pos 10) (pos 25) start fare-Priced
      town-Balanced town-IsPayable

charge_fare_once_example :
    (charge_fare 7 21 (pos 1250) (bytes "old") (pos 10) (pos 25) start).1.pool ≡ town
unfolding text_eq
charge_fare_once_example =
    charge_fare_once 7 21 (pos 1250) (bytes "old") (pos 10) (pos 25) start fare-Priced town-Balanced
      refl

abbrev morning : List Request
morning =
    top_up_request 7 (pos 500) ∷ fare_request 7 21 (pos 1250) (bytes "nonce") (pos 10) (pos 25) ∷ []

serve-IsSound_example : IsSound (serve morning start).pool
serve-IsSound_example =
    serve-IsSound morning start ((omega arith, omega arith), (fare-Priced, tt)) town-IsSound

-- The id "7" is that of the commuter, and any other text is that of the vehicle.
abbrev short_ids : Uuid
short_ids = record {
  parse = λ t. elim t [ [] ↦ none | c ∷ r ↦ some (if c == 55 then 7 else 21) ];
  show = λ n. n ∷ [];
}

abbrev ride : ChargeFareRequest
ride = record {
  commuter_id = bytes "7";
  vehicle_id = bytes "21";
  fare_cents = pos 1250;
  idempotency_key = bytes "nonce";
}

list_transactions_for_account-IsListing_example :
    Ensures
      (Aborts town (λ e. Faulty healthy × (e ≡ database)))
      (λ r s'.
        (s'.pool ≡ town)
        × (all : List Transaction) × IsListing 1 town all
        × (r.1 ≡ length all)
        × (r.0 ≡ take 50 (drop 0 all))
        × (length r.0 ≤ 50))
      (list_transactions_for_account 1 50 0)
      start
list_transactions_for_account-IsListing_example =
    list_transactions_for_account-IsListing town 1 50 0 start ((_, refl), ((_, refl), tt)) refl
