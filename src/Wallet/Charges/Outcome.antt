-- ===== src/Wallet/Charges/Outcome.antt =====
-- The whole of `ChargeFare` (backend/internal/wallet/repo.go).
use sesfikile.Base.{
  ℕ, Bool, true, false, ◌≡◌, refl, ap, some, [], ◌++◌, find?, inl, inr, Bool-cases,
}
use sesfikile.Base.Int.{ℤ}
use sesfikile.Base.Text.{Text, is_empty}
use sesfikile.Wallet.Models.{fare}
use sesfikile.Wallet.Split.{split_fare}
use sesfikile.Wallet.Split.Shares.{Priced}
use sesfikile.Wallet.Repo.{has_key, key_taken, Charged, charge_fare}
use sesfikile.Wallet.Staging.{Open-begin}
use sesfikile.Wallet.Staging.Transactions.{Open-free_key, Open-taken_key}
use sesfikile.Wallet.Sums.{Balanced}
use sesfikile.Database.Schema.{Db}
use sesfikile.Database.Session.{Env, Session, database, idempotency_required}
use sesfikile.Database.Ensures.{
  Ensures, Ensures-bind, Ensures-mono, Ensures-raise_if, Aborts, Faulty,
}
use mathlib.Core.List.{append-nil}
use sesfikile.Wallet.Charges.{ChargeFailure, ChargeResult}
use sesfikile.Wallet.Charges.Reads.{replay_charge-Ensures, join-Ensures}
use sesfikile.Wallet.Charges.Posting.{post_fare-Ensures}

key_taken-nil :
    (key : Text) (d : Db) (b : Bool)
    → key_taken (some key) d.ledger_transactions ≡ b
    → key_taken (some key) (d.ledger_transactions ++ []) ≡ b
key_taken-nil key d b h = rw append-nil h

module _ ⦃env : Env⦄ where
  -- From a balanced ledger, and for a fare and percentages within bounds, a charge ends in one of
  -- three ways. It is refused with the committed tables as before, because the key is empty, the
  -- vehicle has no active driver, the wallet has less than the fare (and the key is free), a
  -- balance does not fit an int64, or a database call failed. Or the key was used: it returns the
  -- transaction that has it, marked as a replay, and changes nothing. Or the key was free: it
  -- commits one transaction under the key, with a posting for each of the commuter, driver, owner
  -- and platform, from a wallet that covers the fare.
  pub charge_fare-Ensures :
      (u v : ℕ) (x : ℤ) (key : Text) (platform_pct driver_pct : ℤ) (s : Session)
      → Priced x platform_pct driver_pct
      → Balanced s.pool.ledger_postings
      → Ensures
          (Aborts s.pool (ChargeFailure env u v x key s.pool))
          (λ r s'. ChargeResult u v x key (split_fare x platform_pct driver_pct) s.pool r s'.pool)
          (charge_fare u v x key platform_pct driver_pct)
          s
  unfolding charge_fare
  charge_fare-Ensures u v x key platform_pct driver_pct s priced balanced =
      Ensures-bind (Ensures-raise_if (is_empty key) idempotency_required refl (λ h. h)) λ _ s₀ r.
        Ensures-bind (Open-begin fault (ap (λ (y : Session). y.pool) r.0)) λ _ s₁ o₁.
          Ensures-bind (join-Ensures u v x key s.pool o₁) λ found s₂ j.
            elim (Bool-cases (key_taken (some key) s.pool.ledger_transactions)) [
              | inl taken ↦
                  Ensures-bind
                    (Open-taken_key fault j.0 fare key _ (key_taken-nil key s.pool true taken))
                    λ t s₃ k. rw k.0 (
                      Ensures-mono
                        (replay_charge-Ensures fault key (split_fare x platform_pct driver_pct)
                          k.1.pool taken)
                        (λ a s' h. replayed a s' h) (λ e s' h. h))
              | inr free ↦
                  Ensures-bind
                    (Open-free_key fault j.0 fare key _ (key_taken-nil key s.pool false free))
                    λ t s₃ k. rw k.2 (
                      Ensures-mono
                        (post_fare-Ensures u v x key platform_pct driver_pct s.pool priced balanced
                          found.0 found.1 _ free k.3)
                        (λ a s' h. rw h.0 (free, refl, refl, (found.0, found.1, j.1, h.1)))
                        (λ e s' h. h))
            ]
    where
      fault : Faulty env → ChargeFailure env u v x key s.pool database
      fault h = h

      replayed :
          (a : Charged) (s' : Session)
          → (s'.pool ≡ s.pool)
            × (a.1 ≡ split_fare x platform_pct driver_pct)
            × (a.2 ≡ true)
            × (find? (has_key key) s.pool.ledger_transactions ≡ some a.0)
          → ChargeResult u v x key (split_fare x platform_pct driver_pct) s.pool a s'.pool
      replayed (t, split, true) s' h = (h.0, h.1, h.3)
      replayed (t, split, false) s' h = cc h.2
