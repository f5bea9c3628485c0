-- ===== src/Wallet/Handlers/Charging.antt =====
-- What POST /wallet/charge answers, and what it has done.
use sesfikile.Base.{ℕ, false, none, some, ◌≡◌, ◌⊎◌, if◌then◌else◌}
use sesfikile.Base.Int.{ℤ}
use sesfikile.Base.Text.{Text}
use sesfikile.Base.Word.{fits64}
use sesfikile.Wallet.Models.{commuter_wallet}
use sesfikile.Wallet.Accounts.{balance_of}
use sesfikile.Wallet.Split.{split_fare}
use sesfikile.Wallet.Repo.{key_taken, owner_and_driver, Charged}
use sesfikile.Wallet.Transfers.Internal.{Short}
use sesfikile.Wallet.Charges.{ChargeResult}
use sesfikile.Wallet.Handlers.{ChargeFareResponse, charge_response}
use sesfikile.Database.Schema.{Db}
use sesfikile.Database.Session.{Env, Session}
use sesfikile.Database.Ensures.{Faulty}
use sesfikile.Http.{Reply, reply, refuse, Uuid}

module _ ⦃env : Env⦄ (uuid : Uuid) (platform_pct driver_pct : ℤ) (u v : ℕ) (x : ℤ) (key : Text)
    (before : Db) where
  -- A charge that was made or replayed.
  abbrev pub IsCharged : Reply ChargeFareResponse × Session → Type 0
  IsCharged r =
      (c : Charged) × (r.0 ≡ reply (if c.2 then 200 else 201) (charge_response uuid x c))
      × ChargeResult u v x key (split_fare x platform_pct driver_pct) before c r.1.pool

  -- A refusal, with its reason; the tables are as they were.
  abbrev pub IsRefused : Reply ChargeFareResponse × Session → Type 0
  IsRefused r =
      (r.1.pool ≡ before)
      × (((r.0 ≡ refuse 402 "insufficient funds")
            × (key_taken (some key) before.ledger_transactions ≡ false)
            × Short before (some u) commuter_wallet x)
          ⊎ ((r.0 ≡ refuse 422 "vehicle has no active driver assignment")
              × (owner_and_driver v before ≡ none))
          ⊎ ((r.0 ≡ refuse 500 "failed to process fare charge")
              × (Faulty env ⊎ (a : ℕ) × (fits64 (balance_of a before.ledger_postings) ≡ false))))

  abbrev Ends : Reply ChargeFareResponse × Session → Type 0
  Ends r = IsCharged r ⊎ IsRefused r
