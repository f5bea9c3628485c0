-- ===== src/Wallet/Transfers/Internal.antt =====
-- What `InternalTransfer` of backend/internal/wallet/repo.go does, on every path.
use sesfikile.Base.{
  ℕ, ◌^◌, ◌<◌, true, false, ◌≡◌, refl, ap, ◌∙◌, Option, some, List, ◌++◌, find?, arith,
}
use sesfikile.Base.Int.{ℤ, pos, pos_part, ◌-ℤ◌, ◌≤ℤ◌, ltb_ℤ, leb_ℤ}
use sesfikile.Base.Word.{i64, fits64}
use sesfikile.Wallet.Models.{AccountType, TransactionKind, Metadata, Account, LedgerTransaction}
use sesfikile.Wallet.Split.Shares.{i64-neg}
use sesfikile.Wallet.Accounts.{is_account, balance_of}
use sesfikile.Wallet.Repo.{internal_transfer}
use sesfikile.Wallet.Staging.{Open-begin, Open-account, Open-lock, Open-balance, Open-posting}
use sesfikile.Wallet.Staging.Transactions.{Open-transaction}
use sesfikile.Wallet.Sums.{Balanced, Balanced-two}
use sesfikile.Database.Schema.{Db}
use sesfikile.Database.Session.{
  Env, Session, Error, database, out_of_range, invalid_amount, insufficient_funds,
}
use sesfikile.Database.Ensures.{
  Ensures, Ensures-pure, Ensures-bind, Ensures-raise_if, Aborts, Faulty,
}
use mathlib.Core.List.{append-nil}
use sesfikile.Wallet.Transfers.{Moved, Open-commit, cancels, find?-grown, found_in}

-- The account of an owner has less than `x`, or an account that is opened for the owner has.
abbrev pub Short : Db → Option ℕ → AccountType → ℤ → Type 0
Short d owner type x =
    (new : List Account) × (a : Account) × (find? (is_account owner type) (d.accounts ++ new)
      ≡ some a)
    × (ltb_ℤ (balance_of a.id d.ledger_postings) x ≡ true)

-- Why a transfer is refused.
abbrev pub TransferFailure : Env → ℕ → AccountType → ℤ → Db → Error → Type 0
TransferFailure env u from_type x d database = Faulty env
TransferFailure env u from_type x d invalid_amount = leb_ℤ x (pos 0) ≡ true
TransferFailure env u from_type x d insufficient_funds = Short d (some u) from_type x
TransferFailure env u from_type x d out_of_range =
    (a : ℕ) × (fits64 (balance_of a d.ledger_postings) ≡ false)
TransferFailure env u from_type x d e = ⊥

positive : (x : ℤ) → leb_ℤ x (pos 0) ≡ false → pos 1 ≤ℤ x
positive x h = ground arith

pub covered : (x b : ℤ) → ltb_ℤ b x ≡ false → x ≤ℤ b
covered x b h = ground arith

module _ ⦃env : Env⦄ where
  -- From a balanced ledger, a transfer of an amount below 2^63 between two accounts of one owner
  -- either fails with the committed tables as before, because a database call failed, the amount is
  -- not positive, the source has less than the amount, or a balance does not fit an int64; or it
  -- moves the amount in one transaction, which it returns, from a source that has it.
  pub internal_transfer-Ensures :
      (u : ℕ) (from_type to_type : AccountType) (x : ℤ) (kind : TransactionKind)
      (metadata : Metadata) (s : Session)
      → pos_part x < 2 ^ 63
      → Balanced s.pool.ledger_postings
      → Ensures
          (Aborts s.pool (TransferFailure env u from_type x s.pool))
          (λ t s'.
            (m : Moved (some u) from_type (some u) to_type x t s.pool s'.pool) × (pos 1 ≤ℤ x)
            × (x ≤ℤ balance_of m.source.id s.pool.ledger_postings))
          (internal_transfer u from_type to_type x kind metadata)
          s
  unfolding internal_transfer
  internal_transfer-Ensures u from_type to_type x kind metadata s range balanced =
      Ensures-bind (Ensures-raise_if (leb_ℤ x (pos 0)) invalid_amount refl (λ h. h)) λ _ s₀ r.
        Ensures-bind (Open-begin fault (ap (λ (y : Session). y.pool) r.0)) λ _ s₁ o₁.
          Ensures-bind (Open-account fault o₁ (some u) from_type) λ source s₂ a.
            Ensures-bind (Open-lock fault a.1 _ source a.2) λ _ s₃ o₃.
              Ensures-bind
                (Open-balance fault o₃ source.id (λ off. (source.id, rw append-nil at off)))
                λ balance s₄ b.
                  Ensures-bind
                    (Ensures-raise_if (ltb_ℤ balance x) insufficient_funds b.0.pool
                      (λ h. (a.0, source, a.2, rw (b.1, append-nil) at h)))
                    λ _ s₅ enough.
                      let o₅ = rw (← enough.0) at b.0 in
                      Ensures-bind (Open-account fault o₅ (some u) to_type) λ target s₆ f.
                        Ensures-bind (Open-transaction fault f.1 kind metadata) λ t s₇ n.
                          Ensures-bind (Open-posting fault n.3 t.id source.id (i64 (pos 0 -ℤ x)))
                            λ _ s₈ p.
                              Ensures-bind (Open-posting fault p.2 t.id target.id x) λ _ s₉ q.
                                let debit = i64-neg x (omega (arith, positive x r.1)) range in
                                Ensures-bind
                                  (Open-commit fault q.2 balanced (
                                    Balanced-two t.id source.id target.id (i64 (pos 0 -ℤ x)) x p.0
                                      p.1 q.0 q.1 (rw debit (cancels x))))
                                  λ _ s₁₀ e.
                                    let tables = e ∙ rw debit refl in
                                    let rows = ap (λ (y : Db). y.accounts) tables in
                                    Ensures-pure t (
                                      record {
                                        new = a.0 ++ f.0;
                                        source = source;
                                        target = target;
                                        i = p.0;
                                        j = p.1;
                                        k = q.0;
                                        l = q.1;
                                        tables = tables;
                                        unkeyed =
                                            ap (λ (y : LedgerTransaction). y.idempotency_key) n.2;
                                        source_found =
                                            found_in _ source rows
                                              (find?-grown _ s.pool.accounts a.0 f.0 source a.2);
                                        target_found = found_in _ target rows f.2;
                                      },
                                      positive x r.1,
                                      covered x (balance_of source.id s.pool.ledger_postings)
                                          (rw (b.1, append-nil) at enough.1),
                                    )
    where
      fault : Faulty env → TransferFailure env u from_type x s.pool database
      fault h = h
