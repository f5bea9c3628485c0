-- ===== src/Database/Healthy.antt =====
-- What an action returns where its calls succeed: equations to run a request by.
use sesfikile.Base.{
  true, ℕ, false, Option, none, some, ◌≡◌, refl, ap, sym, ◌∙◌, ◌⊎◌, inl, inr, Option-cases,
  Bool-cases,
}
use sesfikile.Wallet.Accounts.{scan, missing_to_not_found}
use sesfikile.Database.Schema.{Db}
use sesfikile.Database.Session.{
  Env, Session, Error, database, no_rows, not_found, Result, ok, err, Action, raise, catch, ◌>>=◌,
  Querier, view, store, tick, query, exec,
}

module _ {A B : Type 0} (m : Action A) (s s' : Session) where
  pub run_bind :
      {a : A} (f : A → Action B) {r : Result B × Session}
      → m s ≡ (ok a, s')
      → f a s' ≡ r
      → (m >>= f) s ≡ r
  unfolding ◌>>=◌
  run_bind f h k =
      let go : Result A × Session → Result B × Session =
        λ r. elim r.0 [ ok x ↦ f x r.1 | err e ↦ (err e, r.1) ] in
      ap go h ∙ k

  pub run_bind_err : {e : Error} (f : A → Action B) → m s ≡ (err e, s') → (m >>= f) s ≡ (err e, s')
  unfolding ◌>>=◌
  run_bind_err f h =
      let go : Result A × Session → Result B × Session =
        λ r. elim r.0 [ ok x ↦ f x r.1 | err e ↦ (err e, r.1) ] in
      ap go h

module _ {A : Type 0} (m : Action A) (s s' : Session) where
  pub run_catch : {a : A} (h : Error → Action A) → m s ≡ (ok a, s') → catch m h s ≡ (ok a, s')
  unfolding catch
  run_catch h e =
      let go : Result A × Session → Result A × Session =
        λ r. elim r.0 [ ok x ↦ (ok x, r.1) | err e ↦ h e r.1 ] in
      ap go e

  pub run_catch_err :
      {x : Error} (h : Error → Action A) {r : Result A × Session}
      → m s ≡ (err x, s')
      → h x s' ≡ r
      → catch m h s ≡ r
  unfolding catch
  run_catch_err h e k =
      let go : Result A × Session → Result A × Session =
        λ r. elim r.0 [ ok x ↦ (ok x, r.1) | err e ↦ h e r.1 ] in
      ap go e ∙ k

-- The database answers every call.
abbrev pub IsUp : Env → Type 0
IsUp env = (n : ℕ) → env.fails n ≡ false

-- A row, or the error of the repositories for a row that is not there.
abbrev pub found {ℓ} : {A : Type ℓ} → Option A → Result A
found none = err not_found
found (some a) = ok a

module _ ⦃env : Env⦄ (up : IsUp env) where
  pub run_query :
      {A : Type 0} (q : Querier) (f : Db → Result A) (s : Session)
      → query q f s ≡ (f (view q s), tick s)
  unfolding query
  run_query q f s = rw (up s.clock) refl

  pub run_exec :
      {A : Type 0} (q : Querier) (f : ℕ → ℕ → Db → Result (A × Db)) (s : Session) {a : A} {d : Db}
      → f (env.new_id s.clock) (env.now s.clock) (view q s) ≡ ok (a, d)
      → exec q f s ≡ (ok a, store q d (tick s))
  unfolding exec
  run_exec q f s h = rw (up s.clock, h) refl

  pub run_exec_err :
      {A : Type 0} (q : Querier) (f : ℕ → ℕ → Db → Result (A × Db)) (s : Session) {e : Error}
      → f (env.new_id s.clock) (env.now s.clock) (view q s) ≡ err e
      → exec q f s ≡ (err e, tick s)
  unfolding exec
  run_exec_err q f s h = rw (up s.clock, h) refl

  -- A lookup that reports a missing row as such.
  pub run_lookup :
      {A : Type 0} (q : Querier) (f : Db → Option A) (s : Session)
      → catch (query q (λ d. scan (f d))) missing_to_not_found s ≡ (found (f (view q s)), tick s)
  unfolding catch raise
  run_lookup q f s = elim (Option-cases (f (view q s))) [
    | inl gone ↦
        run_catch_err (query q (λ d. scan (f d))) s (tick s) {x = no_rows} missing_to_not_found
          {r = (found (f (view q s)), tick s)} (run_query q (λ d. scan (f d)) s ∙ rw gone refl)
          (rw (gone, raise) refl)
    | inr (a, there) ↦
        run_catch (query q (λ d. scan (f d))) s (tick s) {a = a} missing_to_not_found
          (run_query q (λ d. scan (f d)) s ∙ rw there refl)
        ∙ sym (rw there refl)
  ]

-- A lookup finds a row, or reports that there is none or that the call failed.
pub lookup_cases :
    ⦃env : Env⦄ {A : Type 0} (q : Querier) (f : Db → Option A) (s : Session)
    → ((a : A) × (f (view q s) ≡ some a)
        × (catch (query q (λ d. scan (f d))) missing_to_not_found s ≡ (ok a, tick s)))
      ⊎ ((f (view q s) ≡ none)
          × (catch (query q (λ d. scan (f d))) missing_to_not_found s ≡ (err not_found, tick s)))
      ⊎ ((env.fails s.clock ≡ true)
          × (catch (query q (λ d. scan (f d))) missing_to_not_found s ≡ (err database, tick s)))
unfolding query raise
lookup_cases ⦃env⦄ q f s = elim (Bool-cases (env.fails s.clock)) [
  | inl down ↦ inr (
      inr (
        down,
        run_catch_err (query q (λ d. scan (f d))) s (tick s) {x = database} missing_to_not_found
            (rw (query, down) refl) refl,
      ))
  | inr up ↦ elim (Option-cases (f (view q s))) [
    | inl gone ↦ inr (
        inl (
          gone,
          run_catch_err (query q (λ d. scan (f d))) s (tick s) {x = no_rows} missing_to_not_found
              (rw (query, up, gone) refl) refl,
        ))
    | inr (a, there) ↦ inl (
      a,
      there,
      run_catch (query q (λ d. scan (f d))) s (tick s) {a = a} missing_to_not_found
          (rw (query, up, there) refl),
    )
  ]
]

-- A statement that reads returns what it reads, unless the call failed.
pub query_cases :
    ⦃env : Env⦄ {A : Type 0} (q : Querier) (f : Db → Result A) (s : Session)
    → (query q f s ≡ (f (view q s), tick s))
      ⊎ ((env.fails s.clock ≡ true) × (query q f s ≡ (err database, tick s)))
unfolding query
query_cases ⦃env⦄ q f s = elim (Bool-cases (env.fails s.clock)) [
  | inl down ↦ inr (down, rw (query, down) refl)
  | inr up ↦ inl (rw (query, up) refl)
]
