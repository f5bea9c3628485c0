-- ===== src/Wallet/Charges/Reads.antt =====
-- The reads of `ChargeFare`: the vehicle's owner and driver, and the transaction that a replay
-- returns (backend/internal/wallet/repo.go).
use sesfikile.Base.{
  ℕ, Bool, true, ◌≡◌, refl, sym, ap, ◌∙◌, Option, none, some, List, [], ◌∷◌, find?, any, arith,
}
use sesfikile.Base.Int.{ℤ}
use sesfikile.Base.Text.{Text}
use sesfikile.Wallet.Models.{LedgerTransaction}
use sesfikile.Wallet.Split.{FareSplit}
use sesfikile.Wallet.Accounts.{scan}
use sesfikile.Wallet.Repo.{
  has_key, key_taken, owner_and_driver, missing_to_no_active_driver,
  get_transaction_by_idempotency_key, replay_charge,
}
use sesfikile.Wallet.Staging.{stage, Open, Open-tick}
use sesfikile.Database.Schema.{Db}
use sesfikile.Database.Session.{
  Env, Session, Error, database, no_rows, no_active_driver, ok, err, catch, on_pool, on_tx, query,
}
use sesfikile.Database.Ensures.{
  Ensures, Ensures-pure, Ensures-raise, Ensures-bind, Ensures-catch, Ensures-mono, Ensures-query,
  Aborts, Faulty,
}
use mathlib.Core.List.{append-nil}
use sesfikile.Wallet.Charges.{ChargeFailure}

stage-nil : (d : Db) → stage d [] [] [] ≡ d
stage-nil d = simp append-nil

any-some : {A : Type 0} (p : A → Bool) (xs : List A) → any p xs ≡ true → find? p xs ≡ none → ⊥
any-some p [] h n = cc
any-some p (x ∷ xs) h n = ground (arith, any-some p xs)

no_key-taken :
    (key : Text) (ts : List LedgerTransaction) (e : Error)
    → key_taken (some key) ts ≡ true
    → scan (find? (has_key key) ts) ≡ err e
    → ⊥
no_key-taken key ts e taken h =
    any-some (has_key key) ts taken (unscanned (find? (has_key key) ts) e h)
  where
    unscanned : (o : Option LedgerTransaction) (e : Error) → scan o ≡ err e → o ≡ none
    unscanned none e h = refl
    unscanned (some t) e h = cc

scanned : {A : Type 0} (o : Option A) (a : A) → scan o ≡ ok a → o ≡ some a
scanned none a h = cc
scanned (some b) a h = ground arith

module _ ⦃env : Env⦄ {d : Db} {R : Error → Type 0} (fault : Faulty env → R database) where
  -- The only error of this read is the driver's, which is handed on.
  pub replay_charge-Ensures :
      (key : Text) (split : FareSplit) {s : Session}
      → s.pool ≡ d
      → key_taken (some key) d.ledger_transactions ≡ true
      → Ensures
          (Aborts d R)
          (λ r s'.
            (s'.pool ≡ d)
            × (r.1 ≡ split)
            × (r.2 ≡ true)
            × (find? (has_key key) d.ledger_transactions ≡ some r.0))
          (replay_charge key split)
          s
  unfolding replay_charge get_transaction_by_idempotency_key
  replay_charge-Ensures key split {s} same taken =
      let rows = ap (λ (y : Db). y.ledger_transactions) same in
      Ensures-bind
        (Ensures-catch
          (Ensures-query {R = λ e. e ≡ database × R database} (λ h. (refl, fault h)) on_pool
            (λ (y : Db). scan (find? (has_key key) y.ledger_transactions)) same
            (λ e h. absurd (no_key-taken key d.ledger_transactions e taken (rw rows at h))))
          (λ e s' h. rw h.1.0 (Ensures-raise database (h.0, h.1.1))))
        λ t s₁ r.
          Ensures-pure (t, split, true)
            (ap (λ (y : Session). y.pool) r.0 ∙ same, refl, refl, scanned _ t (rw rows at r.1))

module _ ⦃env : Env⦄ (u v : ℕ) (x : ℤ) (key : Text) (d : Db) where
  abbrev Refused : Error → Session → Type 0
  Refused = Aborts d (ChargeFailure env u v x key d)

  -- Why the join of the vehicle with its driver ends in an error.
  abbrev Unmatched : Error → Type 0
  Unmatched database = Faulty env
  Unmatched no_rows = owner_and_driver v d ≡ none
  Unmatched e = ⊥

  scan-Unmatched :
      (o : Option (ℕ × ℕ)) (e : Error) → owner_and_driver v d ≡ o → scan o ≡ err e → Unmatched e
  scan-Unmatched none no_rows there h = there
  scan-Unmatched none _ there h = cc
  scan-Unmatched (some a) e there h = cc

  Unmatched-Ensures :
      {P : ℕ × ℕ → Session → Type 0} (e : Error) (s : Session)
      → s.pool ≡ d
      → Unmatched e
      → Ensures Refused P (missing_to_no_active_driver e) s
  Unmatched-Ensures database s same r = Ensures-raise database (same, r)
  Unmatched-Ensures no_rows s same r = Ensures-raise no_active_driver (same, r)
  Unmatched-Ensures _ s same r = absurd r

  pub join-Ensures :
      {s : Session}
      → Open d [] [] [] [] s
      → Ensures Refused
          (λ r s'. Open d [] [] [] [] s' × (owner_and_driver v d ≡ some r))
          (catch
            (query on_tx (λ (y : Db). scan (owner_and_driver v y)))
            missing_to_no_active_driver)
          s
  join-Ensures {s} o =
      let same : scan (owner_and_driver v s.tx) ≡ scan (owner_and_driver v d) =
        ap (λ (y : Db). scan (owner_and_driver v y)) (o.tx ∙ stage-nil d) in
      Ensures-catch
        (Ensures-mono
          (Ensures-query {R = Unmatched} (λ h. h) on_tx (λ (y : Db). scan (owner_and_driver v y))
            o.pool (λ e h. scan-Unmatched (owner_and_driver v d) e refl (sym same ∙ h)))
          (λ r s' h. (Open-tick h.0 o, scanned (owner_and_driver v d) r (sym same ∙ h.1)))
          (λ e s' h. h))
        (λ e s' h. Unmatched-Ensures e s' h.0 h.1)
