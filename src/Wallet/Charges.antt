-- ===== src/Wallet/Charges.antt =====
-- What `ChargeFare` of backend/internal/wallet/repo.go does, on every path.
pub mod Reads
pub mod Posting
pub mod Outcome
pub mod Success
use sesfikile.Base.{
  ℕ, ◌^◌, ◌<◌, ◌*◌, Bool, true, false, ◌≡◌, refl, sym, ap, ◌∙◌, subst, Option, none, some, List, [],
  ◌∷◌, ◌++◌, find?, any, ◌⊎◌, inl, inr, Bool-cases, Option-cases, arith, if◌then◌else◌,
}
use sesfikile.Base.Int.{ℤ, pos, pos_part, neg_part, ◌+ℤ◌, ◌-ℤ◌, ◌≤ℤ◌, ltb_ℤ, int_laws}
use sesfikile.Base.Word.{i64, fits64}
use sesfikile.Base.Text.{Text, is_empty}
use sesfikile.Wallet.Models.{
  AccountType, commuter_wallet, driver_earnings, owner_revenue, platform_fee, fare, Account,
  LedgerTransaction, LedgerPosting,
}
use sesfikile.Wallet.Split.{FareSplit, split_fare}
use sesfikile.Wallet.Split.Shares.{Priced, i64-neg, split_fare-cancels}
use sesfikile.Wallet.Accounts.{is_account, balance_of, scan, missing_to_not_found}
use sesfikile.Wallet.Repo.{
  has_key, key_taken, new_transaction, new_posting, owner_and_driver, missing_to_no_active_driver,
  get_transaction_by_idempotency_key, Charged, replay_charge, replay_on_violation, post_fare,
  fare_metadata, post_or_replay, charge_fare,
}
use sesfikile.Wallet.Staging.{
  stage, Open, Open-tick, Open-begin, Open-account, Open-lock, Open-balance, Open-posting,
}
use sesfikile.Wallet.Staging.Transactions.{Open-free_key, Open-taken_key}
use sesfikile.Wallet.Sums.{Balanced, Balanced-four}
use sesfikile.Wallet.Transfers.{Open-commit, find?-grown, found_in}
use sesfikile.Wallet.Transfers.Internal.{Short, covered as covers}
use sesfikile.Database.Schema.{Db}
use sesfikile.Database.Session.{
  Env, Session, Error, database, out_of_range, no_rows, not_found, unique_violation,
  idempotency_required, no_active_driver, insufficient_funds, Result, ok, err, Action, catch, ◌>>=◌,
  on_pool, on_tx, query, commit,
}
use sesfikile.Database.Ensures.{
  Ensures, Ensures-pure, Ensures-raise, Ensures-bind, Ensures-catch, Ensures-mono, Ensures-query,
  Ensures-raise_if, Aborts, Faulty,
}
use mathlib.Core.List.{append-nil, append_assoc}

-- The four postings of one fare; each has an id and a time of its own.
abbrev pub fare_postings :
    ℕ
    → ℤ
    → FareSplit
    → (commuter driver owner platform : ℕ) → (i j k l : ℕ × ℕ) → List LedgerPosting
fare_postings t x s commuter driver owner platform i j k l =
    new_posting t commuter (pos 0 -ℤ x) i.0 i.1
    ∷ new_posting t driver s.driver_cents j.0 j.1
    ∷ new_posting t owner s.owner_cents k.0 k.1
    ∷ new_posting t platform s.platform_cents l.0 l.1
    ∷ []

-- `d'` is `d` with one fare of `x` cents, paid by the commuter's wallet and shared as `s` says.
pub record Paid (commuter owner driver : ℕ) (x : ℤ) (s : FareSplit) (t : LedgerTransaction)
    (d d' : Db) : Type 0 where
  pub new : List Account
  pub wallet : Account
  pub earnings : Account
  pub revenue : Account
  pub fee : Account
  pub i : ℕ × ℕ
  pub j : ℕ × ℕ
  pub k : ℕ × ℕ
  pub l : ℕ × ℕ
  pub tables :
      d'
      ≡ stage d new
          (t ∷ [])
          (fare_postings t.id x s wallet.id earnings.id revenue.id fee.id i j k l)
  pub wallet_found : find? (is_account (some commuter) commuter_wallet) d'.accounts ≡ some wallet
  pub earnings_found : find? (is_account (some driver) driver_earnings) d'.accounts ≡ some earnings
  pub revenue_found : find? (is_account (some owner) owner_revenue) d'.accounts ≡ some revenue
  pub fee_found : find? (is_account none platform_fee) d'.accounts ≡ some fee
  pub covered : x ≤ℤ balance_of wallet.id d.ledger_postings

-- Why a charge is refused.
abbrev pub ChargeFailure : Env → (commuter vehicle : ℕ) → ℤ → Text → Db → Error → Type 0
ChargeFailure env u v x key d database = Faulty env
ChargeFailure env u v x key d idempotency_required = is_empty key ≡ true
ChargeFailure env u v x key d no_active_driver = owner_and_driver v d ≡ none
ChargeFailure env u v x key d insufficient_funds =
    (key_taken (some key) d.ledger_transactions ≡ false) × Short d (some u) commuter_wallet x
ChargeFailure env u v x key d out_of_range =
    (a : ℕ) × (fits64 (balance_of a d.ledger_postings) ≡ false)
ChargeFailure env u v x key d e = ⊥

-- What a charge returns: a replay names the transaction that has the key and changes nothing; a
-- fresh charge has posted the fare under a key that was free.
abbrev pub ChargeResult : (commuter vehicle : ℕ) → ℤ → Text → FareSplit → Db → Charged → Db → Type 0
ChargeResult u v x key split d (t, s, true) d' =
    (d' ≡ d) × (s ≡ split) × (find? (has_key key) d.ledger_transactions ≡ some t)
ChargeResult u v x key split d (t, s, false) d' =
    (key_taken (some key) d.ledger_transactions ≡ false)
    × (s ≡ split)
    × (t.idempotency_key ≡ some key)
    × ((owner : ℕ) × (driver : ℕ) × (owner_and_driver v d ≡ some (owner, driver))
        × Paid u owner driver x split t d d')
