-- ===== src/Wallet/Charges/Success.antt =====
-- When `ChargeFare` goes through, and a second charge under a key
-- (backend/internal/wallet/repo.go).
use sesfikile.Base.{
  ℕ, true, false, ◌≡◌, refl, sym, ap, ◌∙◌, Option, none, some, find?, find?-append_some, any-find?,
  arith,
}
use sesfikile.Base.Int.{ℤ, ltb_ℤ, ◌≤ℤ◌}
use sesfikile.Base.Word.{fits64}
use sesfikile.Base.Text.{Text, is_empty}
use sesfikile.Wallet.Models.{commuter_wallet, Account, LedgerTransaction}
use sesfikile.Wallet.Split.{FareSplit, split_fare}
use sesfikile.Wallet.Split.Shares.{Priced}
use sesfikile.Wallet.Accounts.{is_account, balance_of}
use sesfikile.Wallet.Repo.{has_key, key_taken, owner_and_driver, Charged, charge_fare}
use sesfikile.Wallet.Sums.{Balanced}
use sesfikile.Wallet.Transfers.Internal.{Short}
use sesfikile.Wallet.Charges.{ChargeFailure, ChargeResult}
use sesfikile.Wallet.Charges.Outcome.{charge_fare-Ensures}
use sesfikile.Database.Schema.{Db}
use sesfikile.Database.Session.{
  Env, Session, Error, database, out_of_range, idempotency_required, no_active_driver,
  insufficient_funds, Result, ok, err,
}
use sesfikile.Database.Ensures.{Holds, Aborts}

-- Everything that a charge needs is there.
pub record IsPayable (env : Env) (u v : ℕ) (x : ℤ) (key : Text) (d : Db) : Type 0 where
  pub healthy : (n : ℕ) → env.fails n ≡ false
  pub keyed : is_empty key ≡ false
  pub fresh : key_taken (some key) d.ledger_transactions ≡ false
  pub owner : ℕ
  pub driver : ℕ
  pub assigned : owner_and_driver v d ≡ some (owner, driver)
  pub wallet : Account
  pub has_wallet : find? (is_account (some u) commuter_wallet) d.accounts ≡ some wallet
  pub funded : x ≤ℤ balance_of wallet.id d.ledger_postings
  pub in_range : (a : ℕ) → fits64 (balance_of a d.ledger_postings) ≡ true

not-Short :
    (u : ℕ) (x : ℤ) (d : Db) (a : Account)
    → find? (is_account (some u) commuter_wallet) d.accounts ≡ some a
    → x ≤ℤ balance_of a.id d.ledger_postings
    → Short d (some u) commuter_wallet x
    → ⊥
not-Short u x d a has funded (new, b, found, short) =
    let same : some a ≡ some b = sym (find?-append_some _ d.accounts new a has) ∙ found in
    contradiction (balance_of b.id d.ledger_postings) (rw (ap id_of same) at funded) short
  where
    id_of : Option Account → ℕ
    id_of none = 0
    id_of (some y) = y.id

    contradiction : (z : ℤ) → x ≤ℤ z → ltb_ℤ z x ≡ true → ⊥
    contradiction z h k = ground arith

module _ ⦃env : Env⦄ where
  no_failure :
      {u v : ℕ} {x : ℤ} {key : Text} {d : Db} (e : Error)
      → IsPayable env u v x key d
      → ChargeFailure env u v x key d e
      → ⊥
  no_failure database p (n, down) = cc (p.healthy n)
  no_failure idempotency_required p h = cc p.keyed
  no_failure no_active_driver p h = cc p.assigned
  no_failure {u} {x} {d} insufficient_funds p h = not-Short u x d p.wallet p.has_wallet p.funded h.1
  no_failure out_of_range p (a, off) = cc (p.in_range a)
  no_failure _ p h = absurd h

  -- The charge returned a fresh transaction.
  abbrev pub IsFresh : Result Charged → Type 0
  IsFresh r = (t : LedgerTransaction) × (s : FareSplit) × (r ≡ ok (t, s, false))

  IsFresh-Holds :
      (u v : ℕ) (x : ℤ) (key : Text) (split : FareSplit) (d : Db) (r : Result Charged)
      (s' : Session)
      → IsPayable env u v x key d
      → Holds
          (Aborts d (ChargeFailure env u v x key d))
          (λ r s'. ChargeResult u v x key split d r s'.pool)
          (r, s')
      → IsFresh r
  IsFresh-Holds u v x key split d (ok (t, s, false)) s' p h = (t, s, refl)
  IsFresh-Holds u v x key split d (ok (t, s, true)) s' p h =
      cc (any-find? (has_key key) d.ledger_transactions t h.2, p.fresh)
  IsFresh-Holds u v x key split d (err e) s' p h = absurd (no_failure e p h.1)

  -- From a balanced ledger, with no failing database call, an unused key, an active driver for the
  -- vehicle, balances that fit an int64 and a wallet that holds the fare, a charge within bounds
  -- returns a fresh transaction.
  pub charge_fare_succeeds :
      (u v : ℕ) (x : ℤ) (key : Text) (platform_pct driver_pct : ℤ) (s : Session)
      → Priced x platform_pct driver_pct
      → Balanced s.pool.ledger_postings
      → IsPayable env u v x key s.pool
      → IsFresh (charge_fare u v x key platform_pct driver_pct s).0
  charge_fare_succeeds u v x key platform_pct driver_pct s priced balanced p =
      IsFresh-Holds u v x key (split_fare x platform_pct driver_pct) s.pool _
        (charge_fare u v x key platform_pct driver_pct s).1 p
        (charge_fare-Ensures u v x key platform_pct driver_pct s priced balanced).holds

  replayed-Holds :
      (u v : ℕ) (x : ℤ) (key : Text) (split : FareSplit) (d : Db) (r : Result Charged)
      (s' : Session)
      → key_taken (some key) d.ledger_transactions ≡ true
      → Holds
          (Aborts d (ChargeFailure env u v x key d))
          (λ r s'. ChargeResult u v x key split d r s'.pool)
          (r, s')
      → s'.pool ≡ d
  replayed-Holds u v x key split d (ok (t, s, false)) s' taken h = cc h.0
  replayed-Holds u v x key split d (ok (t, s, true)) s' taken h = h.0
  replayed-Holds u v x key split d (err e) s' taken h = h.0

  -- From a balanced ledger, a charge within bounds under a key that is taken leaves the committed
  -- tables as they are, whoever pays and whatever fails.
  pub charge_fare_once :
      (u v : ℕ) (x : ℤ) (key : Text) (platform_pct driver_pct : ℤ) (s : Session)
      → Priced x platform_pct driver_pct
      → Balanced s.pool.ledger_postings
      → key_taken (some key) s.pool.ledger_transactions ≡ true
      → (charge_fare u v x key platform_pct driver_pct s).1.pool ≡ s.pool
  charge_fare_once u v x key platform_pct driver_pct s priced balanced taken =
      replayed-Holds u v x key (split_fare x platform_pct driver_pct) s.pool _
        (charge_fare u v x key platform_pct driver_pct s).1 taken
        (charge_fare-Ensures u v x key platform_pct driver_pct s priced balanced).holds
