-- ===== src/Wallet/Transfers.antt =====
-- What `Topup` of backend/internal/wallet/repo.go does, on every path.
pub mod Internal
use sesfikile.Base.{
  ℕ, ◌^◌, ◌<◌, Bool, true, false, ◌≡◌, refl, sym, ap, ◌∙◌, subst, Option, none, some, List, [], ◌∷◌,
  ◌++◌, find?, find?-append_some, ◌⊎◌, inl, inr, arith,
}
use sesfikile.Base.Int.{ℤ, pos, pos_part, neg_part, ◌+ℤ◌, ◌-ℤ◌, ◌≤ℤ◌, ltb_ℤ, leb_ℤ, int_laws}
use sesfikile.Base.Word.{i64, Fits64, fits64}
use sesfikile.Wallet.Models.{
  AccountType, commuter_wallet, funding_source, TransactionKind, topup, Metadata, Account,
  LedgerTransaction, LedgerPosting,
}
use sesfikile.Wallet.Split.Shares.{i64-neg}
use sesfikile.Wallet.Accounts.{is_account, account_balance, balance_of, scan_int64}
use sesfikile.Wallet.Repo.{
  new_transaction, new_posting, topup_note, post_top_up, top_up, internal_transfer,
}
use sesfikile.Wallet.Staging.{
  stage, Open, Open-begin, Open-account, Open-lock, Open-balance, Open-posting, out_of_int64,
  in_int64,
}
use sesfikile.Wallet.Staging.Transactions.{Open-transaction}
use sesfikile.Wallet.Sums.{Balanced, Balanced-append, Balanced-two, all_balanced-Balanced}
use sesfikile.Database.Schema.{Db}
use sesfikile.Database.Session.{
  Env, Session, Error, database, out_of_range, invalid_amount, insufficient_funds, Result, ok, err,
  ◌>>=◌, on_pool, commit, all_balanced,
}
use sesfikile.Database.Ensures.{
  Ensures, Ensures-pure, Ensures-bind, Ensures-mono, Ensures-read, Ensures-raise_if, Ensures-commit,
  Aborts, Faulty,
}
use mathlib.Core.List.{append-nil, append_assoc}

-- Two postings of one new transaction, from `a` to `b`.
abbrev pub transfer_postings : ℕ → ℕ → ℕ → ℤ → ℕ → ℕ → ℕ → ℕ → List LedgerPosting
transfer_postings t a b x i j k l = new_posting t a (pos 0 -ℤ x) i j ∷ new_posting t b x k l ∷ []

-- `d'` is `d` with one transaction that moves `x` from the one account to the other, and with the
-- accounts that had to be created for it.
pub record Moved (from_owner : Option ℕ) (from_type : AccountType) (to_owner : Option ℕ)
    (to_type : AccountType) (x : ℤ) (t : LedgerTransaction) (d d' : Db) : Type 0 where
  pub new : List Account
  pub source : Account
  pub target : Account
  pub i : ℕ
  pub j : ℕ
  pub k : ℕ
  pub l : ℕ
  pub tables : d' ≡ stage d new (t ∷ []) (transfer_postings t.id source.id target.id x i j k l)
  pub unkeyed : t.idempotency_key ≡ none
  pub source_found : find? (is_account from_owner from_type) d'.accounts ≡ some source
  pub target_found : find? (is_account to_owner to_type) d'.accounts ≡ some target

-- Postings that cancel pass the trigger's check at the commit.
pub Open-commit :
    ⦃env : Env⦄ {d : Db} {R : Error → Type 0} (fault : Faulty env → R database) {new : List Account}
    {ts : List LedgerTransaction} {ps : List LedgerPosting} {queue : List ℕ} {s : Session}
    → Open d new ts ps queue s
    → Balanced d.ledger_postings
    → Balanced ps
    → Ensures (Aborts d R) (λ _ s'. s'.pool ≡ stage d new ts ps) commit s
Open-commit {d} fault {ps} {s} o h k =
    Ensures-mono
      (Ensures-commit fault o.pool (
        all_balanced-Balanced s.touched s.tx.ledger_postings (
          subst (λ (t : Db). Balanced t.ledger_postings) (sym o.tx)
            (Balanced-append d.ledger_postings ps h k))))
      (λ _ s' e. e ∙ o.tx) (λ e s' w. w)

pub cancels : (x : ℤ) → (pos 0 -ℤ x) +ℤ (x +ℤ pos 0) ≡ pos 0
cancels x = omega int_laws

-- Why a top-up ends in an error before its commit.
abbrev pub TopUpFailure : Env → Error → Type 0
TopUpFailure env database = Faulty env
TopUpFailure env e = ⊥

pub find?-grown :
    (p : Account → Bool) (xs ys zs : List Account) (a : Account)
    → find? p (xs ++ ys) ≡ some a
    → find? p (xs ++ (ys ++ zs)) ≡ some a
find?-grown p xs ys zs a h = rw (← append_assoc) (find?-append_some p (xs ++ ys) zs a h)

pub found_in :
    (p : Account → Bool) {rows rows' : List Account} (a : Account)
    → rows' ≡ rows
    → find? p rows ≡ some a
    → find? p rows' ≡ some a
found_in p a e h = rw e h

module _ ⦃env : Env⦄ where
  pub post_top_up-Ensures :
      (u : ℕ) (x : ℤ) (s : Session)
      → pos 0 ≤ℤ x
      → pos_part x < 2 ^ 63
      → Balanced s.pool.ledger_postings
      → Ensures
          (Aborts s.pool (TopUpFailure env))
          (λ r s'.
            Moved none funding_source (some u) commuter_wallet x r.0 s.pool s'.pool
            × (find? (is_account (some u) commuter_wallet) s'.pool.accounts ≡ some r.1))
          (post_top_up u x)
          s
  unfolding post_top_up
  post_top_up-Ensures u x s sign range balanced = Ensures-bind (Open-begin fault refl) λ _ s₁ o₁.
      Ensures-bind (Open-account fault o₁ (some u) commuter_wallet) λ wallet s₂ w.
        Ensures-bind (Open-account fault w.1 none funding_source) λ funding s₃ f.
          Ensures-bind (Open-transaction fault f.1 topup topup_note) λ t s₄ n.
            Ensures-bind (Open-posting fault n.3 t.id funding.id (i64 (pos 0 -ℤ x))) λ _ s₅ p.
              Ensures-bind (Open-posting fault p.2 t.id wallet.id x) λ _ s₆ q.
                Ensures-bind
                  (Open-commit fault q.2 balanced
                    (cancelling t.id funding.id wallet.id p.0 p.1 q.0 q.1))
                  λ _ s₇ e.
                    let tables = e ∙ rw (i64-neg x sign range) refl in
                    let rows = ap (λ (t : Db). t.accounts) tables in
                    let wallet_found =
                      found_in _ wallet rows (find?-grown _ s.pool.accounts w.0 f.0 wallet w.2) in
                    Ensures-pure (t, wallet)
                      (
                        record {
                          new = w.0 ++ f.0;
                          source = funding;
                          target = wallet;
                          i = p.0;
                          j = p.1;
                          k = q.0;
                          l = q.1;
                          tables = tables;
                          unkeyed = ap (λ (y : LedgerTransaction). y.idempotency_key) n.2;
                          source_found = found_in _ funding rows f.2;
                          target_found = wallet_found;
                        },
                        wallet_found,
                      )
    where
      cancelling :
          (t a b i j k l : ℕ)
          → Balanced (new_posting t a (i64 (pos 0 -ℤ x)) i j ∷ new_posting t b x k l ∷ [])
      cancelling t a b i j k l =
          Balanced-two t a b (i64 (pos 0 -ℤ x)) x i j k l (rw (i64-neg x sign range) (cancels x))

      fault : Faulty env → TopUpFailure env database
      fault h = h

  -- The balance that is read after the commit may still fail, with the money moved.
  abbrev pub BalanceFailure : Db → Error → Type 0
  BalanceFailure d database = Faulty env
  BalanceFailure d out_of_range = (a : ℕ) × (fits64 (balance_of a d.ledger_postings) ≡ false)
  BalanceFailure d e = ⊥

  abbrev pub TopUpError : ℕ → ℤ → Db → Error → Session → Type 0
  TopUpError u x d e s' =
      Aborts d (TopUpFailure env) e s'
      ⊎ ((t : LedgerTransaction) × Moved none funding_source (some u) commuter_wallet x t d s'.pool
          × BalanceFailure s'.pool e)

  -- What a top-up of `x` for the user `u` returns: its transaction, and the wallet's balance.
  abbrev pub ToppedUp : ℕ → ℤ → Db → LedgerTransaction × ℤ → Session → Type 0
  ToppedUp u x d r s' =
      Moved none funding_source (some u) commuter_wallet x r.0 d s'.pool
      × ((wallet : Account) × (find? (is_account (some u) commuter_wallet) s'.pool.accounts
            ≡ some wallet)
          × (r.1 ≡ balance_of wallet.id s'.pool.ledger_postings))

  balance-Ensures :
      (d : Db) (u : ℕ) (x : ℤ) (t : LedgerTransaction) (wallet : Account) (s : Session)
      → Moved none funding_source (some u) commuter_wallet x t d s.pool
      → find? (is_account (some u) commuter_wallet) s.pool.accounts ≡ some wallet
      → Ensures
          (TopUpError u x d)
          (λ b s'. ToppedUp u x d (t, b) s')
          (account_balance on_pool wallet.id)
          s
  unfolding account_balance
  balance-Ensures d u x t wallet s m w =
      Ensures-mono
        (Ensures-read {E = λ e s'. (s'.pool ≡ s.pool) × BalanceFailure s.pool e} on_pool
          (λ (y : Db). scan_int64 (balance_of wallet.id y.ledger_postings)) s (λ down. (refl, down))
          (λ e h.
            let off = out_of_int64 (balance_of wallet.id s.pool.ledger_postings) e h in
            (refl, rw off.0 (wallet.id, off.1))))
        (λ b s' h.
          rw h.0 (m, (wallet, w, in_int64 (balance_of wallet.id s.pool.ledger_postings) b h.1)))
        (λ e s' h. inr (t, rw h.0 m, rw h.0 h.1))

  -- From a balanced ledger, a top-up of an amount in the range 0 ≤ x < 2^63 ends in one of three
  -- ways. It fails because a database call failed, and the committed tables are as before; or it
  -- moves x from the funding source to the user's wallet in one transaction, and returns that
  -- transaction and the wallet's balance; or it has moved the money and reports an error, because
  -- the balance could not be read after the commit.
  pub top_up-Ensures :
      (u : ℕ) (x : ℤ) (s : Session)
      → pos 0 ≤ℤ x
      → pos_part x < 2 ^ 63
      → Balanced s.pool.ledger_postings
      → Ensures (TopUpError u x s.pool) (ToppedUp u x s.pool) (top_up u x) s
  unfolding top_up
  top_up-Ensures u x s sign range balanced =
      Ensures-bind
        (Ensures-mono (post_top_up-Ensures u x s sign range balanced) (λ r s' h. h)
          (λ e s' h. inl h))
        λ r s₁ h.
          Ensures-bind (balance-Ensures s.pool u x r.0 r.1 s₁ h.0 h.1)
            λ b s₂ k. Ensures-pure (r.0, b) k
