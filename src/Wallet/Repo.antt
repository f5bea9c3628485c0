-- ===== src/Wallet/Repo.antt =====
-- The money movements of backend/internal/wallet/repo.go, statement by statement.
use sesfikile.Base.{
  ℕ, Bool, true, false, Option, none, some, List, [], ◌∷◌, ◌++◌, find?, any, ◌==◌, if◌then◌else◌,
}
use sesfikile.Base.Int.{ℤ, pos, ◌-ℤ◌, ltb_ℤ, leb_ℤ}
use sesfikile.Base.Word.{i64}
use sesfikile.Base.Text.{Text, bytes, text_eq, is_empty}
use sesfikile.Identity.Models.{Vehicle, VehicleAssignment, Driver}
use sesfikile.Wallet.Models.{
  AccountType, commuter_wallet, driver_earnings, owner_revenue, platform_fee, funding_source,
  TransactionKind, topup, fare, Metadata, note, fare_details, Account, LedgerTransaction,
  LedgerPosting,
}
use sesfikile.Wallet.Split.{FareSplit, split_fare}
use sesfikile.Wallet.Accounts.{
  scan, missing_to_not_found, get_or_create_account, lock_account, account_balance,
}
use sesfikile.Database.Schema.{Db}
use sesfikile.Database.Session.{
  Env, Error, unique_violation, no_rows, insufficient_funds, no_active_driver, idempotency_required,
  invalid_amount, ok, err, Action, pure, raise, raise_if, catch, ◌>>=◌, ◌>>◌, Querier, on_pool,
  on_tx, query, exec, begin, commit,
}

-- `idempotency_key = $1`
abbrev pub has_key : Text → LedgerTransaction → Bool
has_key key t = elim t.idempotency_key [ none ↦ false | some k ↦ text_eq k key ]

-- The UNIQUE column: a key that is NULL clashes with none.
abbrev pub key_taken : Option Text → List LedgerTransaction → Bool
key_taken none ts = false
key_taken (some key) ts = any (has_key key) ts

abbrev pub new_transaction : TransactionKind → Option Text → Metadata → ℕ → ℕ → LedgerTransaction
new_transaction kind key metadata id now = record {
  id = id;
  kind = kind;
  idempotency_key = key;
  metadata = metadata;
  created_at = now;
}

abbrev pub add_transaction : LedgerTransaction → Db → Db
add_transaction t d = record d { ledger_transactions = d.ledger_transactions ++ t ∷ [] }

-- What a session does beside the insert: the deferred trigger is queued for the transaction.
unfoldable pub queue_check : ℕ → Action (Unit {0})
queue_check t s = (ok tt, record s { touched = t ∷ s.touched })

-- The rows of vehicles, vehicle_assignments and drivers that `ChargeFare` joins.
abbrev pub active_assignment : ℕ → VehicleAssignment → Bool
active_assignment vehicle va = if va.vehicle_id == vehicle then va.active else false

abbrev driver_of : Db → VehicleAssignment → Option ℕ
driver_of d va = elim (find? (λ (x : Driver). x.id == va.driver_id) d.drivers) [
  | none ↦ none
  | some x ↦ some x.user_id
]

-- The owner's and the driver's user ids: the first row of the join, if it has one.
unfoldable pub owner_and_driver : ℕ → Db → Option (ℕ × ℕ)
owner_and_driver vehicle d = elim (find? (λ (v : Vehicle). v.id == vehicle) d.vehicles) [
  | none ↦ none
  | some v ↦ elim (find? (active_assignment vehicle) d.vehicle_assignments) [
    | none ↦ none
    | some va ↦ elim (driver_of d va) [ none ↦ none | some u ↦ some (v.owner_user_id, u) ]
  ]
]

-- `errors.Is(err, pgx.ErrNoRows)` of the join
abbrev pub missing_to_no_active_driver {ℓ} : {A : Type ℓ} → Error → Action A
missing_to_no_active_driver no_rows = raise no_active_driver
missing_to_no_active_driver e = raise e

abbrev pub new_posting : ℕ → ℕ → ℤ → ℕ → ℕ → LedgerPosting
new_posting transaction_id account_id amount id now = record {
  id = id;
  transaction_id = transaction_id;
  account_id = account_id;
  amount_cents = amount;
  created_at = now;
}

abbrev pub topup_note : Metadata
topup_note = note (bytes "simulated top-up — no real payment gateway in the MVP")

-- The result of a fare charge: the transaction, the split, and whether it is a replay.
abbrev pub Charged : Type 0
Charged = LedgerTransaction × FareSplit × Bool

abbrev pub fare_metadata : ℕ → ℕ → ℕ → ℕ → ℤ → FareSplit → Metadata
fare_metadata commuter_user_id vehicle_id owner_user_id driver_user_id fare_cents split =
    fare_details (record {
      vehicle_id = vehicle_id;
      commuter_id = commuter_user_id;
      driver_user_id = driver_user_id;
      owner_user_id = owner_user_id;
      fare_cents = fare_cents;
      platform_cents = split.platform_cents;
      driver_cents = split.driver_cents;
      owner_cents = split.owner_cents;
    })

module _ ⦃env : Env⦄ where
  unfoldable pub insert_transaction :
      TransactionKind → Option Text → Metadata → Action LedgerTransaction
  insert_transaction kind key metadata = exec on_tx (λ id now d.
      let t = new_transaction kind key metadata id now in
      if key_taken key d.ledger_transactions
      then err unique_violation
      else ok (t, add_transaction t d))

  -- `ON CONFLICT (idempotency_key) DO NOTHING`; `none` is `created = false`.
  unfoldable pub try_insert_transaction :
      TransactionKind → Text → Metadata → Action (Option LedgerTransaction)
  try_insert_transaction kind key metadata = exec on_tx (λ id now d.
      let t = new_transaction kind (some key) metadata id now in
      if key_taken (some key) d.ledger_transactions
      then ok (none, d)
      else ok (some t, add_transaction t d))

  unfoldable pub get_transaction_by_idempotency_key : Querier → Text → Action LedgerTransaction
  get_transaction_by_idempotency_key q key =
      catch (query q (λ d. scan (find? (has_key key) d.ledger_transactions))) missing_to_not_found

  unfoldable pub insert_posting : ℕ → ℕ → ℤ → Action (Unit {0})
  insert_posting transaction_id account_id amount =
      exec on_tx (λ id now d. ok (
        tt,
        record d {
          ledger_postings =
              d.ledger_postings ++ new_posting transaction_id account_id amount id now ∷ [];
        },
      ))
      >> queue_check transaction_id

  -- `Topup` up to its commit: the transaction and the wallet.
  unfoldable pub post_top_up : ℕ → ℤ → Action (LedgerTransaction × Account)
  post_top_up commuter_user_id amount_cents = do
    begin
    commuter_acc ← get_or_create_account on_tx (some commuter_user_id) commuter_wallet
    funding_acc ← get_or_create_account on_tx none funding_source
    txn ← insert_transaction topup none topup_note
    insert_posting txn.id funding_acc.id (i64 (pos 0 -ℤ amount_cents))
    insert_posting txn.id commuter_acc.id amount_cents
    commit
    pure (txn, commuter_acc)

  unfoldable pub top_up : ℕ → ℤ → Action (LedgerTransaction × ℤ)
  top_up commuter_user_id amount_cents = do
    (txn, commuter_acc) ← post_top_up commuter_user_id amount_cents
    balance ← account_balance on_pool commuter_acc.id
    pure (txn, balance)

  unfoldable pub internal_transfer :
      ℕ → AccountType → AccountType → ℤ → TransactionKind → Metadata → Action LedgerTransaction
  internal_transfer owner_user_id from_type to_type amount_cents kind metadata = do
    raise_if (leb_ℤ amount_cents (pos 0)) invalid_amount
    begin
    from_acc ← get_or_create_account on_tx (some owner_user_id) from_type
    locked ← lock_account from_acc.id
    balance ← account_balance on_tx from_acc.id
    raise_if (ltb_ℤ balance amount_cents) insufficient_funds
    to_acc ← get_or_create_account on_tx (some owner_user_id) to_type
    txn ← insert_transaction kind none metadata
    insert_posting txn.id from_acc.id (i64 (pos 0 -ℤ amount_cents))
    insert_posting txn.id to_acc.id amount_cents
    commit
    pure txn

  unfoldable pub replay_charge : Text → FareSplit → Action Charged
  replay_charge key split = do
    existing ← get_transaction_by_idempotency_key on_pool key
    pure (existing, split, true)

  -- `isUniqueViolation(err)` of the commit
  abbrev pub replay_on_violation : Text → FareSplit → Error → Action Charged
  replay_on_violation key split unique_violation = replay_charge key split
  replay_on_violation key split e = raise e

  -- The part of `ChargeFare` behind the new transaction.
  unfoldable pub post_fare : ℕ → ℕ → ℕ → ℤ → Text → FareSplit → LedgerTransaction → Action Charged
  post_fare commuter_user_id owner_user_id driver_user_id fare_cents key split txn = do
    commuter_acc ← get_or_create_account on_tx (some commuter_user_id) commuter_wallet
    locked ← lock_account commuter_acc.id
    balance ← account_balance on_tx commuter_acc.id
    raise_if (ltb_ℤ balance fare_cents) insufficient_funds
    driver_acc ← get_or_create_account on_tx (some driver_user_id) driver_earnings
    owner_acc ← get_or_create_account on_tx (some owner_user_id) owner_revenue
    platform_acc ← get_or_create_account on_tx none platform_fee
    insert_posting txn.id commuter_acc.id (i64 (pos 0 -ℤ fare_cents))
    insert_posting txn.id driver_acc.id split.driver_cents
    insert_posting txn.id owner_acc.id split.owner_cents
    insert_posting txn.id platform_acc.id split.platform_cents
    catch (commit >> pure (txn, split, false)) (replay_on_violation key split)

  -- `if !created`
  abbrev pub post_or_replay :
      ℕ → ℕ × ℕ → ℤ → Text → FareSplit → Option LedgerTransaction → Action Charged
  post_or_replay commuter_user_id found fare_cents key split none = replay_charge key split
  post_or_replay commuter_user_id (owner, driver) fare_cents key split (some txn) =
      post_fare commuter_user_id owner driver fare_cents key split txn

  unfoldable pub charge_fare : ℕ → ℕ → ℤ → Text → ℤ → ℤ → Action Charged
  charge_fare commuter_user_id vehicle_id fare_cents key platform_pct driver_pct = do
    raise_if (is_empty key) idempotency_required
    begin
    found ←
        catch (query on_tx (λ d. scan (owner_and_driver vehicle_id d))) missing_to_no_active_driver
    let split = split_fare fare_cents platform_pct driver_pct
    created ←
        try_insert_transaction fare key
          (fare_metadata commuter_user_id vehicle_id found.0 found.1 fare_cents split)
    post_or_replay commuter_user_id found fare_cents key split created
