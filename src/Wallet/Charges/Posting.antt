-- ===== src/Wallet/Charges/Posting.antt =====
-- The part of `ChargeFare` that checks the balance and posts the fare
-- (backend/internal/wallet/repo.go).
use sesfikile.Base.{
  ℕ, Bool, false, ◌≡◌, refl, ap, ◌∙◌, none, some, List, [], ◌∷◌, ◌++◌, find?, arith,
}
use sesfikile.Base.Int.{ℤ, pos, ◌-ℤ◌, ltb_ℤ}
use sesfikile.Base.Word.{i64}
use sesfikile.Base.Text.{Text}
use sesfikile.Wallet.Models.{
  commuter_wallet, driver_earnings, owner_revenue, platform_fee, Account, LedgerTransaction,
}
use sesfikile.Wallet.Split.{FareSplit, split_fare}
use sesfikile.Wallet.Split.Shares.{Priced, i64-neg, split_fare-cancels}
use sesfikile.Wallet.Accounts.{balance_of}
use sesfikile.Wallet.Repo.{key_taken, post_fare}
use sesfikile.Wallet.Staging.{Open, Open-account, Open-lock, Open-balance, Open-posting}
use sesfikile.Wallet.Sums.{Balanced, Balanced-four}
use sesfikile.Wallet.Transfers.{Open-commit, find?-grown, found_in}
use sesfikile.Wallet.Transfers.Internal.{covered as covers}
use sesfikile.Database.Schema.{Db}
use sesfikile.Database.Session.{Env, Session, Error, database, insufficient_funds}
use sesfikile.Database.Ensures.{
  Ensures, Ensures-pure, Ensures-raise, Ensures-bind, Ensures-catch, Ensures-raise_if, Aborts,
  Faulty,
}
use mathlib.Core.List.{append-nil}
use sesfikile.Wallet.Charges.{Paid, ChargeFailure}

module _ ⦃env : Env⦄ (u v : ℕ) (x : ℤ) (key : Text) (platform_pct driver_pct : ℤ) (d : Db)
    (priced : Priced x platform_pct driver_pct) (balanced : Balanced d.ledger_postings) where
  abbrev split : FareSplit
  split = split_fare x platform_pct driver_pct

  abbrev Refused : Error → Session → Type 0
  Refused = Aborts d (ChargeFailure env u v x key d)

  fault : Faulty env → ChargeFailure env u v x key d database
  fault h = h

  -- A commit of postings that cancel is lost to the driver alone.
  abbrev Lost : Error → Type 0
  Lost e = (e ≡ database) × Faulty env

  debit : i64 (pos 0 -ℤ x) ≡ pos 0 -ℤ x
  debit = i64-neg x priced.fare_nonneg (omega (arith, priced.in_range))

  pub post_fare-Ensures :
      (owner driver : ℕ) (t : LedgerTransaction) {s : Session}
      → key_taken (some key) d.ledger_transactions ≡ false
      → Open d [] (t ∷ []) [] [] s
      → Ensures Refused
          (λ r s'. (r ≡ (t, split, false)) × Paid u owner driver x split t d s'.pool)
          (post_fare u owner driver x key split t)
          s
  unfolding post_fare
  post_fare-Ensures owner driver t free o =
      Ensures-bind (Open-account fault o (some u) commuter_wallet) λ wallet s₁ w.
        Ensures-bind (Open-lock fault w.1 _ wallet w.2) λ _ s₂ o₂.
          Ensures-bind (Open-balance fault o₂ wallet.id (λ off. (wallet.id, rw append-nil at off)))
            λ balance s₃ b.
              Ensures-bind
                (Ensures-raise_if (ltb_ℤ balance x) insufficient_funds b.0.pool
                  (λ h. (free, (w.0, wallet, w.2, rw (b.1, append-nil) at h))))
                λ _ s₄ enough.
                  let o₄ = rw (← enough.0) at b.0 in
                  Ensures-bind (Open-account fault o₄ (some driver) driver_earnings)
                    λ earnings s₅ e.
                      Ensures-bind (Open-account fault e.1 (some owner) owner_revenue)
                        λ revenue s₆ r.
                          Ensures-bind (Open-account fault r.1 none platform_fee) λ fee s₇ f.
                            Ensures-bind (Open-posting fault f.1 t.id wallet.id (i64 (pos 0 -ℤ x)))
                              λ _ s₈ p₁.
                                Ensures-bind
                                  (Open-posting fault p₁.2 t.id earnings.id split.driver_cents)
                                  λ _ s₉ p₂.
                                    Ensures-bind
                                      (Open-posting fault p₂.2 t.id revenue.id split.owner_cents)
                                      λ _ s₁₀ p₃.
                                        Ensures-bind
                                          (Open-posting fault p₃.2 t.id fee.id split.platform_cents)
                                          λ _ s₁₁ p₄.
                                            let zero_sum =
                                              Balanced-four t.id wallet.id earnings.id revenue.id
                                                fee.id (i64 (pos 0 -ℤ x)) split.driver_cents
                                                split.owner_cents split.platform_cents p₁.0 p₁.1
                                                p₂.0 p₂.1 p₃.0 p₃.1 p₄.0 p₄.1
                                                (split_fare-cancels x platform_pct driver_pct
                                                  priced) in
                                            Ensures-catch
                                              (Ensures-bind
                                                (Open-commit {R = Lost} (λ h. (refl, h)) p₄.2
                                                  balanced zero_sum)
                                                λ _ s₁₂ c.
                                                  let tables = c ∙ rw debit refl in
                                                  let rows = ap (λ (y : Db). y.accounts) tables in
                                                  Ensures-pure (t, split, false)
                                                    (
                                                      refl,
                                                      record {
                                                        new = w.0 ++ e.0 ++ r.0 ++ f.0;
                                                        wallet = wallet;
                                                        earnings = earnings;
                                                        revenue = revenue;
                                                        fee = fee;
                                                        i = (p₁.0, p₁.1);
                                                        j = (p₂.0, p₂.1);
                                                        k = (p₃.0, p₃.1);
                                                        l = (p₄.0, p₄.1);
                                                        tables = tables;
                                                        wallet_found = found_in _ wallet rows (
                                                            grown _ (w.0 ++ e.0 ++ r.0) f.0 wallet (
                                                            grown _ (w.0 ++ e.0) r.0 wallet
                                                            (grown _ w.0 e.0 wallet w.2)));
                                                        earnings_found = found_in _ earnings rows (
                                                            grown _ (w.0 ++ e.0 ++ r.0) f.0 earnings
                                                            (grown _ (w.0 ++ e.0) r.0 earnings
                                                            e.2));
                                                        revenue_found = found_in _ revenue rows (
                                                            grown _ (w.0 ++ e.0 ++ r.0) f.0 revenue
                                                            r.2);
                                                        fee_found = found_in _ fee rows f.2;
                                                        covered =
                                                            covers x
                                                            (balance_of wallet.id d.ledger_postings)
                                                            (rw (b.1, append-nil) at enough.1);
                                                      },
                                                    ))
                                              (λ e s' h.
                                                rw h.1.0 (Ensures-raise database (h.0, h.1.1)))
    where
      grown :
          (p : Account → Bool) (ys zs : List Account) (a : Account)
          → find? p (d.accounts ++ ys) ≡ some a
          → find? p (d.accounts ++ (ys ++ zs)) ≡ some a
      grown p ys zs a h = find?-grown p d.accounts ys zs a h
