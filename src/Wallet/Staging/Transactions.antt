-- ===== src/Wallet/Staging/Transactions.antt =====
-- The inserts into ledger_transactions, with and without an idempotency key.
use sesfikile.Base.{ℕ, true, false, ◌≡◌, refl, ap, ◌∙◌, none, some, List, [], ◌∷◌, ◌++◌}
use sesfikile.Base.Text.{Text}
use sesfikile.Wallet.Models.{TransactionKind, Metadata, Account, LedgerTransaction, LedgerPosting}
use sesfikile.Wallet.Repo.{
  new_transaction, add_transaction, key_taken, insert_transaction, try_insert_transaction,
}
use sesfikile.Database.Schema.{Db}
use sesfikile.Database.Session.{Env, Session, Error, database, tick}
use sesfikile.Database.Ensures.{Ensures, Ensures-mono, Ensures-exec, Aborts, Faulty}
use mathlib.Core.List.{append_assoc}
use sesfikile.Wallet.Staging.{Open}

module _ {d : Db} {new : List Account} {ts : List LedgerTransaction} {ps : List LedgerPosting}
    {queue : List ℕ} {s : Session} (o : Open d new ts ps queue s) where
  added :
      (t : LedgerTransaction) {s' : Session}
      → s' ≡ record (tick s) { tx = add_transaction t s.tx }
      → Open d new (ts ++ t ∷ []) ps queue s'
  added t at = record {
    pool = ap (λ (y : Session). y.pool) at ∙ o.pool;
    tx = ap (λ (y : Session). y.tx) at ∙ (ap (add_transaction t) o.tx ∙ simp append_assoc);
    touched = ap (λ (y : Session). y.touched) at ∙ o.touched;
  }

  unchanged : {s' : Session} → s' ≡ record (tick s) { tx = s.tx } → Open d new ts ps queue s'
  unchanged at = record {
    pool = ap (λ (y : Session). y.pool) at ∙ o.pool;
    tx = ap (λ (y : Session). y.tx) at ∙ o.tx;
    touched = ap (λ (y : Session). y.touched) at ∙ o.touched;
  }

module _ ⦃env : Env⦄ {d : Db} {R : Error → Type 0} (fault : Faulty env → R database) where
  module _ {new : List Account} {ts : List LedgerTransaction} {ps : List LedgerPosting}
      {queue : List ℕ} {s : Session} (o : Open d new ts ps queue s) where
    -- A transaction with no key is inserted.
    pub Open-transaction :
        (kind : TransactionKind) (metadata : Metadata)
        → Ensures
            (Aborts d R)
            (λ t s'.
              (id : ℕ) × (now : ℕ) × (t ≡ new_transaction kind none metadata id now)
              × Open d new (ts ++ t ∷ []) ps queue s')
            (insert_transaction kind none metadata)
            s
    unfolding insert_transaction
    Open-transaction kind metadata =
        let t = new_transaction kind none metadata (env.new_id s.clock) (env.now s.clock) in
        Ensures-mono (Ensures-exec fault _ t (add_transaction t s.tx) o.pool refl)
          (λ t' s' w. (env.new_id s.clock, env.now s.clock, w.0, rw w.0 (added o t w.1)))
          (λ e s' h. h)

    -- A transaction with a key that is free is inserted.
    pub Open-free_key :
        (kind : TransactionKind) (key : Text) (metadata : Metadata)
        → key_taken (some key) (d.ledger_transactions ++ ts) ≡ false
        → Ensures
            (Aborts d R)
            (λ r s'.
              (id : ℕ) × (now : ℕ) × (r ≡ some (new_transaction kind (some key) metadata id now))
              × Open d new (ts ++ new_transaction kind (some key) metadata id now ∷ []) ps queue s')
            (try_insert_transaction kind key metadata)
            s
    unfolding try_insert_transaction
    Open-free_key kind key metadata free =
        let t = new_transaction kind (some key) metadata (env.new_id s.clock) (env.now s.clock) in
        Ensures-mono
          (Ensures-exec fault _ (some t) (add_transaction t s.tx) o.pool
            (rw (ap (λ (y : Db). key_taken (some key) y.ledger_transactions) o.tx ∙ free) refl))
          (λ t' s' w. (env.new_id s.clock, env.now s.clock, w.0, added o t w.1)) (λ e s' h. h)

    -- A key that is taken is left alone.
    pub Open-taken_key :
        (kind : TransactionKind) (key : Text) (metadata : Metadata)
        → key_taken (some key) (d.ledger_transactions ++ ts) ≡ true
        → Ensures
            (Aborts d R)
            (λ r s'. (r ≡ none) × Open d new ts ps queue s')
            (try_insert_transaction kind key metadata)
            s
    unfolding try_insert_transaction
    Open-taken_key kind key metadata taken =
        Ensures-mono
          (Ensures-exec fault _ none s.tx o.pool
            (rw (ap (λ (y : Db). key_taken (some key) y.ledger_transactions) o.tx ∙ taken) refl))
          (λ t' s' w. (w.0, unchanged o w.1)) (λ e s' h. h)
