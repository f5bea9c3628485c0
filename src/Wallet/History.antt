-- ===== src/Wallet/History.antt =====
-- Any history of requests to the wallet's repository (backend/internal/wallet/repo.go), each with
-- database failures wherever the environment puts them.
use sesfikile.Base.{ℕ, ◌^◌, ◌<◌, true, false, some, List, [], ◌∷◌, All, inl, inr, arith}
use sesfikile.Base.Int.{ℤ, pos, pos_part, ◌≤ℤ◌}
use sesfikile.Base.Text.{Text}
use sesfikile.Wallet.Models.{AccountType, TransactionKind, Metadata, LedgerTransaction}
use sesfikile.Wallet.Split.{split_fare}
use sesfikile.Wallet.Split.Shares.{Priced}
use sesfikile.Wallet.Accounts.{balance_of}
use sesfikile.Wallet.Repo.{Charged, top_up, internal_transfer, charge_fare}
use sesfikile.Wallet.Transfers.{Moved, TopUpError, ToppedUp, top_up-Ensures}
use sesfikile.Wallet.Transfers.Internal.{TransferFailure, internal_transfer-Ensures}
use sesfikile.Wallet.Charges.{ChargeFailure, ChargeResult}
use sesfikile.Wallet.Charges.Outcome.{charge_fare-Ensures}
use sesfikile.Wallet.Invariant.{IsSound}
use sesfikile.Wallet.Invariant.Keeps.{top_up-IsSound, transfer-IsSound}
use sesfikile.Wallet.Invariant.Fares.{fare-IsSound}
use sesfikile.Database.Schema.{Db}
use sesfikile.Database.Session.{Env, Session, Result, ok, err}
use sesfikile.Database.Ensures.{Holds, Aborts}

-- The calls that move money.
pub data Request : Type 0 where
  top_up_request : ℕ → ℤ → Request
  transfer_request : ℕ → AccountType → AccountType → ℤ → TransactionKind → Metadata → Request
  fare_request : ℕ → ℕ → ℤ → Text → ℤ → ℤ → Request

-- The amounts that the callers of the repository pass on.
abbrev pub IsValid : Request → Type 0
IsValid (top_up_request u x) = (pos 1 ≤ℤ x) × (pos_part x < 2 ^ 63)
IsValid (transfer_request u from_type to_type x kind metadata) = pos_part x < 2 ^ 63
IsValid (fare_request u v x key platform_pct driver_pct) = Priced x platform_pct driver_pct

module _ ⦃env : Env⦄ where
  unfoldable pub handle : Request → Session → Session
  handle (top_up_request u x) s = (top_up u x s).1
  handle (transfer_request u from_type to_type x kind metadata) s =
      (internal_transfer u from_type to_type x kind metadata s).1
  handle (fare_request u v x key platform_pct driver_pct) s =
      (charge_fare u v x key platform_pct driver_pct s).1

  unfoldable pub serve : List Request → Session → Session
  serve [] s = s
  serve (r ∷ rs) s = serve rs (handle r s)

  top_up-kept :
      (u : ℕ) (x : ℤ) (d : Db) (r : Result (LedgerTransaction × ℤ)) (s' : Session)
      → pos 1 ≤ℤ x
      → IsSound d
      → Holds (TopUpError u x d) (ToppedUp u x d) (r, s')
      → IsSound s'.pool
  top_up-kept u x d (ok r) s' px h k = top_up-IsSound k.0 (omega arith) h
  top_up-kept u x d (err e) s' px h (inl k) = rw k.0 h
  top_up-kept u x d (err e) s' px h (inr k) = top_up-IsSound k.1 (omega arith) h

  fare-kept :
      (u v : ℕ) (x : ℤ) (key : Text) (p q : ℤ) (d : Db) (r : Result Charged) (s' : Session)
      → Priced x p q
      → IsSound d
      → Holds
          (Aborts d (ChargeFailure env u v x key d))
          (λ r s'. ChargeResult u v x key (split_fare x p q) d r s'.pool)
          (r, s')
      → IsSound s'.pool
  fare-kept u v x key p q d (ok (t, split, true)) s' priced h k = rw k.0 h
  fare-kept u v x key p q d (ok (t, split, false)) s' priced h k =
      fare-IsSound x p q key priced k.2 k.0 k.3.3 h
  fare-kept u v x key p q d (err e) s' priced h k = rw k.0 h

  transfer-kept :
      (u : ℕ) (from_type to_type : AccountType) (x : ℤ) (d : Db) (r : Result LedgerTransaction)
      (s' : Session)
      → IsSound d
      → Holds
          (Aborts d (TransferFailure env u from_type x d))
          (λ t s'.
            (m : Moved (some u) from_type (some u) to_type x t d s'.pool) × (pos 1 ≤ℤ x)
            × (x ≤ℤ balance_of m.source.id d.ledger_postings))
          (r, s')
      → IsSound s'.pool
  transfer-kept u from_type to_type x d (ok t) s' h k = transfer-IsSound k.0 k.1 k.2 h
  transfer-kept u from_type to_type x d (err e) s' h k = rw k.0 h

  handle-IsSound :
      (r : Request) (s : Session) → IsValid r → IsSound s.pool → IsSound (handle r s).pool
  unfolding handle
  handle-IsSound (top_up_request u x) s v h =
      top_up-kept u x s.pool (top_up u x s).0 (top_up u x s).1 v.0 h
        (top_up-Ensures u x s (omega arith) v.1 h.balanced).holds
  handle-IsSound (transfer_request u f t x kind metadata) s v h =
      transfer-kept u f t x s.pool (internal_transfer u f t x kind metadata s).0
        (internal_transfer u f t x kind metadata s).1 h
        (internal_transfer-Ensures u f t x kind metadata s v h.balanced).holds
  handle-IsSound (fare_request u v x key p q) s priced h =
      fare-kept u v x key p q s.pool (charge_fare u v x key p q s).0 (charge_fare u v x key p q s).1
        priced h (charge_fare-Ensures u v x key p q s priced h.balanced).holds

  -- After any requests with amounts within bounds, and whichever database calls failed, every
  -- transaction's postings cancel, no account but the funding source is overdrawn, and no
  -- idempotency key is used by two transactions, if this was so before.
  pub serve-IsSound :
      (rs : List Request) (s : Session)
      → All IsValid rs
      → IsSound s.pool
      → IsSound (serve rs s).pool
  unfolding serve
  serve-IsSound [] s v h = h
  serve-IsSound (r ∷ rs) s v h = serve-IsSound rs (handle r s) v.1 (handle-IsSound r s v.0 h)
