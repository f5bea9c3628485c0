-- ===== src/Wallet/Effects.antt =====
-- What each statement of the ledger does to the open transaction, and that it leaves the
-- committed tables alone (backend/internal/wallet/repo.go).
use sesfikile.Base.{
  ℕ, Bool, true, false, ◌≡◌, refl, ap, ◌∙◌, Option, none, some, List, [], ◌∷◌, ◌++◌, find?, any,
  find?-append_none, inl, inr, Bool-cases, arith,
}
use sesfikile.Wallet.Models.{AccountType, Account}
use sesfikile.Wallet.Accounts.{
  is_account, scan, missing_to_not_found, new_account, get_account, insert_account,
  create_if_missing, get_or_create_account,
}
use sesfikile.Database.Schema.{Db}
use sesfikile.Database.Session.{
  Env, Session, Error, database, no_rows, not_found, ok, err, on_tx, tick, exec,
}
use sesfikile.Database.Ensures.{
  Ensures, Ensures-raise, Ensures-catch, Ensures-mono, Ensures-read, Aborts, Faulty,
}
use mathlib.Core.List.{append-nil}

pub any-none {ℓ} : {A : Type ℓ} (p : A → Bool) (xs : List A) → find? p xs ≡ none → any p xs ≡ false
any-none p [] h = refl
any-none p (x ∷ xs) h = ground (arith, any-none p xs)

pub is_account_self :
    (owner : Option ℕ) (t : AccountType) (id now : ℕ)
    → is_account owner t (new_account owner t id now) ≡ true
is_account_self none t id now = ground arith
is_account_self (some o) t id now = ground arith

-- The tables with accounts added.
abbrev pub with_accounts : Db → List Account → Db
with_accounts d new = record d { accounts = d.accounts ++ new }

-- What a call of `get_or_create_account` leaves: accounts may be new, and the one asked for is
-- there.
pub record Found (owner : Option ℕ) (t : AccountType) (a : Account) (s s' : Session) : Type 0 where
  pub same_pool : s'.pool ≡ s.pool
  pub same_queue : s'.touched ≡ s.touched
  pub created : List Account
  pub grown : s'.tx ≡ with_accounts s.tx created
  pub found : find? (is_account owner t) s'.tx.accounts ≡ some a

-- Why a lookup of an account ends in an error.
abbrev Missing : ⦃env : Env⦄ → Option ℕ → AccountType → Session → Error → Type 0
Missing ⦃env⦄ owner t s database = Faulty env
Missing owner t s not_found = find? (is_account owner t) s.tx.accounts ≡ none
Missing owner t s e = ⊥

-- The same of the query that it makes.
abbrev Unread : ⦃env : Env⦄ → Option ℕ → AccountType → Session → Error → Type 0
Unread ⦃env⦄ owner t s database = Faulty env
Unread owner t s no_rows = find? (is_account owner t) s.tx.accounts ≡ none
Unread owner t s e = ⊥

some_of_scan : {A : Type 0} (o : Option A) (a : A) → scan o ≡ ok a → o ≡ some a
some_of_scan none a h = cc
some_of_scan (some b) a h = ground arith

module _ ⦃env : Env⦄ where
  scan-Unread :
      (owner : Option ℕ) (t : AccountType) (s : Session) (o : Option Account) (e : Error)
      → find? (is_account owner t) s.tx.accounts ≡ o
      → scan o ≡ err e
      → Unread owner t s e
  scan-Unread owner t s none no_rows there h = there
  scan-Unread owner t s none _ there h = cc
  scan-Unread owner t s (some a) e there h = cc

  Missing-Ensures :
      (owner : Option ℕ) (t : AccountType) (s : Session) (e : Error) (s' : Session)
      → s' ≡ tick s
      → Unread owner t s e
      → Ensures
          (λ e' s''. (s'' ≡ tick s) × Missing owner t s e')
          (λ a s''. (s'' ≡ tick s) × (find? (is_account owner t) s.tx.accounts ≡ some a))
          (missing_to_not_found {A = Account} e)
          s'
  Missing-Ensures owner t s database s' at u = Ensures-raise database (at, u)
  Missing-Ensures owner t s no_rows s' at u = Ensures-raise not_found (at, u)
  Missing-Ensures owner t s _ s' at u = absurd u

  get_account-Ensures :
      (owner : Option ℕ) (t : AccountType) (s : Session)
      → Ensures
          (λ e s'. (s' ≡ tick s) × Missing owner t s e)
          (λ a s'. (s' ≡ tick s) × (find? (is_account owner t) s.tx.accounts ≡ some a))
          (get_account on_tx owner t)
          s
  unfolding get_account
  get_account-Ensures owner t s =
      Ensures-catch
        (Ensures-mono
          (Ensures-read {E = λ e s'. (s' ≡ tick s) × Unread owner t s e} on_tx
            (λ d. scan (find? (is_account owner t) d.accounts)) s (λ down. (refl, down))
            (λ e h.
              (refl, scan-Unread owner t s (find? (is_account owner t) s.tx.accounts) e refl h)))
          (λ a s' h. (h.0, some_of_scan (find? (is_account owner t) s.tx.accounts) a h.1))
          (λ e s' h. h))
        (λ e s' h. Missing-Ensures owner t s e s' h.0 h.1)

  -- The insert goes through, since the lookup found no account.
  insert_account-Ensures :
      (owner : Option ℕ) (t : AccountType) (s : Session)
      → find? (is_account owner t) s.tx.accounts ≡ none
      → Ensures
          (λ e s'. (s' ≡ tick s) × (e ≡ database) × Faulty env)
          (λ a s'. Found owner t a s s')
          (insert_account on_tx owner t)
          s
  unfolding insert_account exec
  insert_account-Ensures owner t s missing =
      let a = new_account owner t (env.new_id s.clock) (env.now s.clock) in
      elim (Bool-cases (env.fails s.clock)) [
        | inl down ↦ record { holds = rw down (refl, refl, (s.clock, down)) }
        | inr up ↦ record {
          holds =
              rw (up, any-none (is_account owner t) s.tx.accounts missing)
                (record {
                  same_pool = refl;
                  same_queue = refl;
                  created = a ∷ [];
                  grown = refl;
                  found =
                      find?-append_none (is_account owner t) s.tx.accounts (a ∷ []) missing
                      ∙ rw (is_account_self owner t (env.new_id s.clock) (env.now s.clock));
                });
        }
      ]

  module _ {d : Db} {R : Error → Type 0} (fault : Faulty env → R database) where
    create_if_missing-Ensures :
        (owner : Option ℕ) (t : AccountType) (s : Session) (e : Error)
        → s.pool ≡ d
        → Missing owner t s e
        → Ensures
            (Aborts d R)
            (λ a s'. Found owner t a s s')
            (create_if_missing on_tx owner t e)
            (tick s)
    create_if_missing-Ensures owner t s database same m = Ensures-raise database (same, fault m)
    create_if_missing-Ensures owner t s not_found same m =
        Ensures-catch
          (Ensures-mono (insert_account-Ensures owner t (tick s) m)
            (λ a s' f. record {
              same_pool = f.same_pool;
              same_queue = f.same_queue;
              created = f.created;
              grown = f.grown;
              found = f.found;
            })
            (λ e s' h. h))
          (λ e s' w. rw w.1 (Ensures-raise database (rw w.0 same, fault w.2)))
    create_if_missing-Ensures owner t s _ same m = absurd m

    -- An account that exists is found, and one that does not is created.
    pub get_or_create_account-Ensures :
        (owner : Option ℕ) (t : AccountType) (s : Session)
        → s.pool ≡ d
        → Ensures
            (Aborts d R)
            (λ a s'. Found owner t a s s')
            (get_or_create_account on_tx owner t)
            s
    unfolding get_or_create_account
    get_or_create_account-Ensures owner t s same =
        Ensures-catch
          (Ensures-mono (get_account-Ensures owner t s)
            (λ a s' h. record {
              same_pool = ap (λ (x : Session). x.pool) h.0;
              same_queue = ap (λ (x : Session). x.touched) h.0;
              created = [];
              grown = ap (λ (x : Session). x.tx) h.0 ∙ rw append-nil;
              found = rw h.0 h.1;
            })
            (λ e s' h. h))
          (λ e s' h. rw h.0 (create_if_missing-Ensures owner t s e same h.1))
