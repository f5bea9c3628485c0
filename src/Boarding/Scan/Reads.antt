-- ===== src/Boarding/Scan/Reads.antt =====
-- The reads of ScanPass (backend/internal/boarding/handlers.go) and the ledger: a lookup of a code
-- may sweep expired passes, and writes nothing else.
use sesfikile.Base.{ℕ, ◌==◌, ◌≡◌, refl, ap, ◌∙◌, inl, inr, find?, Bool-cases}
use sesfikile.Base.Text.{Text}
use sesfikile.Identity.Models.{Driver}
use sesfikile.Identity.Repo.{
  active_of_driver, get_driver_by_user_id, get_active_vehicle_assignment_by_driver_id,
}
use sesfikile.Boarding.PassStore.{missing_to_code_not_found, cleanup_expired, sweep, lookup_code}
use sesfikile.Database.Schema.{Db}
use sesfikile.Database.Session.{
  Error, no_rows, Querier, Env, Session, Result, ok, err, Action, query, exec, catch, pure, raise,
  ◌>>=◌, on_pool,
}
use sesfikile.Database.Healthy.{lookup_cases}

-- The ledger's tables are as they were.
pub record LedgerKept (s s' : Session) : Type 0 where
  pub accounts : s'.pool.accounts ≡ s.pool.accounts
  pub transactions : s'.pool.ledger_transactions ≡ s.pool.ledger_transactions
  pub postings : s'.pool.ledger_postings ≡ s.pool.ledger_postings

pub LedgerKept-refl : (s : Session) → LedgerKept s s
LedgerKept-refl s = record { accounts = refl; transactions = refl; postings = refl }

pub LedgerKept-trans : (r s t : Session) → LedgerKept r s → LedgerKept s t → LedgerKept r t
LedgerKept-trans r s t a b = record {
  accounts = b.accounts ∙ a.accounts;
  transactions = b.transactions ∙ a.transactions;
  postings = b.postings ∙ a.postings;
}

same-LedgerKept : (s s' : Session) → s'.pool ≡ s.pool → LedgerKept s s'
same-LedgerKept s s' e = record {
  accounts = ap (λ d. d.accounts) e;
  transactions = ap (λ d. d.ledger_transactions) e;
  postings = ap (λ d. d.ledger_postings) e;
}

module _ ⦃env : Env⦄ where
  pub driver-LedgerKept : (user : ℕ) (s : Session) → LedgerKept s (get_driver_by_user_id user s).1
  unfolding get_driver_by_user_id
  driver-LedgerKept user s =
      same-LedgerKept s _
        (elim (lookup_cases on_pool (λ d. find? (λ (x : Driver). x.user_id == user) d.drivers) s) [
          | inl (a, there, e) ↦ ap (λ r. r.1.pool) e
          | inr (inl (gone, e)) ↦ ap (λ r. r.1.pool) e
          | inr (inr (down, e)) ↦ ap (λ r. r.1.pool) e
        ])

  pub assignment-LedgerKept :
      (driver : ℕ) (s : Session)
      → LedgerKept s (get_active_vehicle_assignment_by_driver_id driver s).1
  unfolding get_active_vehicle_assignment_by_driver_id
  assignment-LedgerKept driver s =
      same-LedgerKept s _
        (elim (lookup_cases on_pool (λ d. find? (active_of_driver driver) d.vehicle_assignments)
          s) [
            | inl (a, there, e) ↦ ap (λ r. r.1.pool) e
            | inr (inl (gone, e)) ↦ ap (λ r. r.1.pool) e
            | inr (inr (down, e)) ↦ ap (λ r. r.1.pool) e
          ])

  abbrev Keeps : {A : Type 0} → Action A → Type 0
  Keeps m = (s : Session) → LedgerKept s (m s).1

  next-LedgerKept :
      {A B : Type 0} (f : A → Action B) (s : Session) (r : Result A × Session)
      → LedgerKept s r.1
      → ((a : A) → Keeps (f a))
      → LedgerKept s
          (let go : Result B × Session = elim r.0 [ ok a ↦ f a r.1 | err e ↦ (err e, r.1) ] in go).1
  next-LedgerKept f s (ok a, s') h k = LedgerKept-trans s s' (f a s').1 h (k a s')
  next-LedgerKept f s (err e, s') h k = h

  caught-LedgerKept :
      {A : Type 0} (f : Error → Action A) (s : Session) (r : Result A × Session)
      → LedgerKept s r.1
      → ((e : Error) → Keeps (f e))
      → LedgerKept s
          (let go : Result A × Session = elim r.0 [ ok a ↦ (ok a, r.1) | err e ↦ f e r.1 ] in go).1
  caught-LedgerKept f s (ok a, s') h k = h
  caught-LedgerKept f s (err e, s') h k = LedgerKept-trans s s' (f e s').1 h (k e s')

  bind-Keeps :
      {A B : Type 0} (m : Action A) (f : A → Action B)
      → Keeps m
      → ((a : A) → Keeps (f a))
      → Keeps (m >>= f)
  unfolding ◌>>=◌
  bind-Keeps m f h k s = next-LedgerKept f s (m s) (h s) k

  catch-Keeps :
      {A : Type 0} (m : Action A) (f : Error → Action A)
      → Keeps m
      → ((e : Error) → Keeps (f e))
      → Keeps (catch m f)
  unfolding catch
  catch-Keeps m f h k s = caught-LedgerKept f s (m s) (h s) k

  pure-Keeps : {A : Type 0} (a : A) → Keeps (pure a)
  unfolding pure
  pure-Keeps a s = LedgerKept-refl s

  missing-Keeps : (A : Type 0) (e : Error) → Keeps (missing_to_code_not_found {A = A} e)
  unfolding raise
  missing-Keeps A no_rows s = LedgerKept-refl s
  missing-Keeps A e s = LedgerKept-refl s

  query-Keeps : {A : Type 0} (q : Querier) (f : Db → Result A) → Keeps (query q f)
  unfolding query
  query-Keeps q f s = elim (Bool-cases (env.fails s.clock)) [
    | inl down ↦ rw down (same-LedgerKept s _ refl)
    | inr up ↦ rw up (same-LedgerKept s _ refl)
  ]

  cleanup_expired-Keeps : (now : ℕ) → Keeps (cleanup_expired now)
  unfolding cleanup_expired exec
  cleanup_expired-Keeps now s = elim (Bool-cases (env.fails s.clock)) [
    | inl down ↦ rw down (record { accounts = refl; transactions = refl; postings = refl })
    | inr up ↦ rw up (record { accounts = refl; transactions = refl; postings = refl })
  ]

  pub code-LedgerKept :
      (to_upper : ℕ → ℕ) (now : ℕ) (code : Text) (s : Session)
      → LedgerKept s (lookup_code to_upper now code s).1
  unfolding lookup_code sweep
  code-LedgerKept to_upper now code =
      bind-Keeps _ _
        (catch-Keeps _ _ (bind-Keeps _ _ (cleanup_expired-Keeps now) (λ c. pure-Keeps tt))
          (λ e. pure-Keeps tt))
        (λ u. catch-Keeps _ _ (query-Keeps on_pool _) (missing-Keeps _))
