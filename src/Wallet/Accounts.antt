-- ===== src/Wallet/Accounts.antt =====
-- The account half of backend/internal/wallet/repo.go: accounts are created on first use, and a
-- balance is the sum of the postings.
use sesfikile.Base.{
  ℕ, Bool, true, false, Option, none, some, List, [], ◌∷◌, ◌++◌, find?, any, ◌==◌, ◌&&◌,
  if◌then◌else◌,
}
use sesfikile.Base.Int.{ℤ, pos, ◌+ℤ◌}
use sesfikile.Base.Word.{fits64}
use sesfikile.Wallet.Models.{
  AccountType, commuter_wallet, driver_earnings, owner_revenue, platform_fee, funding_source,
  fuel_account, Account, LedgerPosting,
}
use sesfikile.Database.Schema.{Db}
use sesfikile.Database.Session.{
  Env, Error, out_of_range, unique_violation, no_rows, not_found, Result, ok, err, Action, pure,
  raise, catch, ◌>>=◌, Querier, on_pool, on_tx, query, exec,
}

abbrev pub ordinal : AccountType → ℕ
ordinal commuter_wallet = 0
ordinal driver_earnings = 1
ordinal owner_revenue = 2
ordinal platform_fee = 3
ordinal funding_source = 4
ordinal fuel_account = 5

-- `owner_user_id = $1`, or `owner_user_id IS NULL`
abbrev pub same_owner : Option ℕ → Option ℕ → Bool
same_owner none none = true
same_owner (some a) (some b) = a == b
same_owner none (some b) = false
same_owner (some a) none = false

abbrev pub is_account : Option ℕ → AccountType → Account → Bool
is_account owner t a = same_owner owner a.owner_user_id && ordinal a.type == ordinal t

-- `row.Scan` on the first row, if there is one.
abbrev pub scan {ℓ} : {A : Type ℓ} → Option A → Result A
scan none = err no_rows
scan (some a) = ok a

-- `COALESCE(SUM(amount_cents), 0)`, exact as Postgres computes it.
unfoldable pub balance_of : ℕ → List LedgerPosting → ℤ
balance_of a [] = pos 0
balance_of a (p ∷ ps) =
    if p.account_id == a then p.amount_cents +ℤ balance_of a ps else balance_of a ps

-- The scan of a sum into an int64.
abbrev pub scan_int64 : ℤ → Result ℤ
scan_int64 total = if fits64 total then ok total else err out_of_range

-- `errors.Is(err, pgx.ErrNoRows)`
abbrev pub missing_to_not_found {ℓ} : {A : Type ℓ} → Error → Action A
missing_to_not_found no_rows = raise not_found
missing_to_not_found e = raise e

abbrev pub new_account : Option ℕ → AccountType → ℕ → ℕ → Account
new_account owner t id now = record { id = id; owner_user_id = owner; type = t; created_at = now }

-- The two unique indexes on accounts refuse a second account of one owner and type.
abbrev pub add_account : Option ℕ → AccountType → ℕ → ℕ → Db → Result (Account × Db)
add_account owner t id now d =
    let a = new_account owner t id now in
    if any (is_account owner t) d.accounts
    then err unique_violation
    else ok (a, record d { accounts = d.accounts ++ a ∷ [] })

module _ ⦃env : Env⦄ where
  unfoldable pub get_account : Querier → Option ℕ → AccountType → Action Account
  get_account q owner t =
      catch (query q (λ d. scan (find? (is_account owner t) d.accounts))) missing_to_not_found

  unfoldable pub insert_account : Querier → Option ℕ → AccountType → Action Account
  insert_account q owner t = exec q (add_account owner t)

  -- A lost race on the insert reads the winner's row.
  abbrev pub reread_on_violation : Querier → Option ℕ → AccountType → Error → Action Account
  reread_on_violation q owner t unique_violation = get_account q owner t
  reread_on_violation q owner t e = raise e

  abbrev pub create_if_missing : Querier → Option ℕ → AccountType → Error → Action Account
  create_if_missing q owner t not_found =
      catch (insert_account q owner t) (reread_on_violation q owner t)
  create_if_missing q owner t e = raise e

  unfoldable pub get_or_create_account : Querier → Option ℕ → AccountType → Action Account
  get_or_create_account q owner t = catch (get_account q owner t) (create_if_missing q owner t)

  unfoldable pub ensure_system_accounts : Action (Unit {0})
  ensure_system_accounts = do
    a ← get_or_create_account on_pool none funding_source
    b ← get_or_create_account on_pool none platform_fee
    pure tt

  -- `SELECT id … FOR UPDATE`
  unfoldable pub lock_account : ℕ → Action ℕ
  lock_account id = query on_tx (λ d. elim (find? (λ (a : Account). a.id == id) d.accounts) [
    | none ↦ err no_rows
    | some a ↦ ok a.id
  ])

  unfoldable pub account_balance : Querier → ℕ → Action ℤ
  account_balance q id = query q (λ d. scan_int64 (balance_of id d.ledger_postings))
