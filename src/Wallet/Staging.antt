-- ===== src/Wallet/Staging.antt =====
-- The open transaction of a money movement: what it has added to the tables that it began with,
-- and how each statement of backend/internal/wallet/repo.go adds to that.
pub mod Transactions
use sesfikile.Base.{
  ℕ, Bool, true, false, ◌≡◌, refl, sym, ap, ◌∙◌, subst, Option, none, some, List, [], ◌∷◌, ◌++◌,
  find?, ◌==◌, arith, if◌then◌else◌,
}
use sesfikile.Base.Int.{ℤ}
use sesfikile.Base.Word.{fits64}
use sesfikile.Base.Text.{Text}
use sesfikile.Wallet.Models.{
  AccountType, TransactionKind, Metadata, Account, LedgerTransaction, LedgerPosting,
}
use sesfikile.Wallet.Accounts.{
  is_account, get_or_create_account, lock_account, account_balance, balance_of, scan_int64,
}
use sesfikile.Wallet.Repo.{
  new_transaction, add_transaction, key_taken, insert_transaction, try_insert_transaction,
  queue_check, new_posting, insert_posting,
}
use sesfikile.Wallet.Effects.{Found, with_accounts, get_or_create_account-Ensures}
use sesfikile.Database.Schema.{Db}
use sesfikile.Database.Session.{
  Env, Session, Error, database, out_of_range, unique_violation, no_rows, Result, ok, err, ◌>>=◌,
  on_tx, tick, begin, query,
}
use sesfikile.Database.Ensures.{
  Ensures, Ensures-bind, Ensures-mono, Ensures-query, Ensures-exec, Ensures-begin, Aborts, Faulty,
}
use mathlib.Core.List.{append-nil, append_assoc}

-- The tables `d` with accounts, transactions and postings added.
abbrev pub stage : Db → List Account → List LedgerTransaction → List LedgerPosting → Db
stage d new ts ps = record d {
  accounts = d.accounts ++ new;
  ledger_transactions = d.ledger_transactions ++ ts;
  ledger_postings = d.ledger_postings ++ ps;
}

pub record Open (d : Db) (new : List Account) (ts : List LedgerTransaction)
    (ps : List LedgerPosting) (queue : List ℕ) (s : Session) : Type 0 where
  pub pool : s.pool ≡ d
  pub tx : s.tx ≡ stage d new ts ps
  pub touched : s.touched ≡ queue

pub Open-tick :
    {d : Db} {new : List Account} {ts : List LedgerTransaction} {ps : List LedgerPosting}
    {queue : List ℕ} {s s' : Session}
    → s' ≡ tick s
    → Open d new ts ps queue s
    → Open d new ts ps queue s'
Open-tick at o = rw at (record { pool = o.pool; tx = o.tx; touched = o.touched })

-- An account that is found in the table has a row with its id.
find?-id :
    (p : Account → Bool) (xs : List Account) (a : Account)
    → find? p xs ≡ some a
    → find? (λ (x : Account). x.id == a.id) xs ≡ none
    → ⊥
find?-id p [] a h n = cc
find?-id p (x ∷ xs) a h n = ground (arith, find?-id p xs a)

pub out_of_int64 :
    (z : ℤ) (e : Error) → scan_int64 z ≡ err e → (e ≡ out_of_range) × (fits64 z ≡ false)
out_of_int64 z e h = ground arith

pub in_int64 : (z b : ℤ) → scan_int64 z ≡ ok b → b ≡ z
in_int64 z b h = ground arith

abbrev locked_row : ℕ → List Account → Result ℕ
locked_row id rows = elim (find? (λ (a : Account). a.id == id) rows) [
  | none ↦ err no_rows
  | some a ↦ ok a.id
]

row_missing :
    (id : ℕ) (rows : List Account) (e : Error)
    → locked_row id rows ≡ err e
    → find? (λ (x : Account). x.id == id) rows ≡ none
row_missing id rows e h = ground arith

module _ ⦃env : Env⦄ {d : Db} {R : Error → Type 0} (fault : Faulty env → R database) where
  pub Open-begin :
      {s : Session} → s.pool ≡ d → Ensures (Aborts d R) (λ _ s'. Open d [] [] [] [] s') begin s
  Open-begin same =
      Ensures-mono (Ensures-begin fault same)
        (λ _ s' h. record { pool = h.0; tx = h.1 ∙ simp append-nil; touched = h.2 }) (λ e s' h. h)

  module _ {new : List Account} {ts : List LedgerTransaction} {ps : List LedgerPosting}
      {queue : List ℕ} {s : Session} (o : Open d new ts ps queue s) where
    pub Open-account :
        (owner : Option ℕ) (type : AccountType)
        → Ensures
            (Aborts d R)
            (λ a s'.
              (more : List Account) × Open d (new ++ more) ts ps queue s'
              × (find? (is_account owner type) (d.accounts ++ (new ++ more)) ≡ some a))
            (get_or_create_account on_tx owner type)
            s
    Open-account owner type =
        Ensures-mono (get_or_create_account-Ensures fault owner type s o.pool)
          (λ a s' f.
            let staged : s'.tx ≡ stage d (new ++ f.created) ts ps =
              f.grown ∙ (ap (λ (t : Db). with_accounts t f.created) o.tx ∙ simp append_assoc) in
            (
              f.created,
              record {
                pool = f.same_pool ∙ o.pool;
                tx = staged;
                touched = f.same_queue ∙ o.touched;
              },
              subst (λ (t : Db). find? (is_account owner type) t.accounts ≡ some a) staged f.found,
            ))
          (λ e s' h. h)

    -- The row of an account that was found is there to be locked.
    pub Open-lock :
        (p : Account → Bool) (a : Account)
        → find? p (d.accounts ++ new) ≡ some a
        → Ensures (Aborts d R) (λ _ s'. Open d new ts ps queue s') (lock_account a.id) s
    unfolding lock_account
    Open-lock p a there =
        Ensures-mono
          (Ensures-query fault on_tx (λ (t : Db). locked_row a.id t.accounts) o.pool
            (λ e h. absurd (
              find?-id p (d.accounts ++ new) a there (
                row_missing a.id (d.accounts ++ new) e
                  (ap (λ (t : Db). locked_row a.id t.accounts) (sym o.tx) ∙ h)))))
          (λ a' s' h. Open-tick h.0 o) (λ e s' h. h)

    pub Open-balance :
        (id : ℕ)
        → (fits64 (balance_of id (d.ledger_postings ++ ps)) ≡ false → R out_of_range)
        → Ensures
            (Aborts d R)
            (λ b s'. Open d new ts ps queue s' × (b ≡ balance_of id (d.ledger_postings ++ ps)))
            (account_balance on_tx id)
            s
    unfolding account_balance
    Open-balance id range =
        Ensures-mono
          (Ensures-query fault on_tx (λ (t : Db). scan_int64 (balance_of id t.ledger_postings))
            o.pool
            (λ e h.
              let off =
                out_of_int64 (balance_of id (d.ledger_postings ++ ps)) e
                  (ap (λ (t : Db). scan_int64 (balance_of id t.ledger_postings)) (sym o.tx) ∙ h) in
              rw off.0 (range off.1)))
          (λ b s' h. (
            Open-tick h.0 o,
            in_int64 (balance_of id (d.ledger_postings ++ ps)) b
                (ap (λ (t : Db). scan_int64 (balance_of id t.ledger_postings)) (sym o.tx) ∙ h.1),
          ))
          (λ e s' h. h)

    pub Open-posting :
        (t a : ℕ) (x : ℤ)
        → Ensures
            (Aborts d R)
            (λ _ s'.
              (id : ℕ) × (now : ℕ) × Open d new ts
                (ps ++ new_posting t a x id now ∷ [])
                (t ∷ queue)
                s')
            (insert_posting t a x)
            s
    unfolding insert_posting queue_check
    Open-posting t a x =
        let p = new_posting t a x (env.new_id s.clock) (env.now s.clock) in
        Ensures-bind
          (Ensures-exec fault _ tt
            (record s.tx { ledger_postings = s.tx.ledger_postings ++ p ∷ [] }) o.pool refl)
          (λ _ s' w. queued w.1)
      where
        queued :
            {s' : Session}
            → s' ≡ record (tick s) {
              tx = record s.tx {
                ledger_postings =
                    s.tx.ledger_postings
                    ++ new_posting t a x (env.new_id s.clock) (env.now s.clock) ∷ [];
              };
            }
            → Ensures
                (Aborts d R)
                (λ _ s''.
                  (id : ℕ) × (now : ℕ) × Open d new ts
                    (ps ++ new_posting t a x id now ∷ [])
                    (t ∷ queue)
                    s'')
                (queue_check t)
                s'
        queued {s'} at = record {
          holds = (
            env.new_id s.clock,
            env.now s.clock,
            record {
              pool = ap (λ (y : Session). y.pool) at ∙ o.pool;
              tx =
                  ap (λ (y : Session). y.tx) at
                  ∙ (ap
                        (λ (y : Db). record y {
                          ledger_postings =
                              y.ledger_postings
                              ++ new_posting t a x (env.new_id s.clock) (env.now s.clock) ∷ [];
                        })
                        o.tx
                      ∙ simp append_assoc);
              touched =
                  ap (λ (y : Session). t ∷ y.touched) at ∙ ap (λ (q : List ℕ). t ∷ q) o.touched;
            },
          );
        }
