-- ===== src/Database/Ensures.antt =====
-- What an action does, by how it ends: a triple with one postcondition for a result and one for
-- an error, and a rule for each way to build an action.
use sesfikile.Base.{ℕ, Bool, true, false, ◌≡◌, refl, [], inl, inr, Bool-cases}
use sesfikile.Database.Schema.{Db}
use sesfikile.Database.Session.{
  Env, Session, Error, database, Result, ok, err, Action, pure, raise, raise_if, catch, ◌>>=◌,
  Querier, on_tx, view, tick, all_balanced, query, exec, begin, commit,
}

abbrev pub Holds :
    {A : Type 0} → (Error → Session → Type 0) → (A → Session → Type 0) → Result A × Session → Type 0
Holds E P (ok a, s) = P a s
Holds E P (err e, s) = E e s

pub record Ensures {A : Type 0} (E : Error → Session → Type 0) (P : A → Session → Type 0)
    (m : Action A) (s : Session) : Type 0 where
  pub holds : Holds E P (m s)

module _ {A : Type 0} {E : Error → Session → Type 0} {P : A → Session → Type 0} where
  pub Ensures-pure : (a : A) {s : Session} → P a s → Ensures E P (pure a) s
  unfolding pure
  Ensures-pure a h = record { holds = h }

  pub Ensures-raise : (e : Error) {s : Session} → E e s → Ensures E P (raise e) s
  unfolding raise
  Ensures-raise e h = record { holds = h }

module _ {A B : Type 0} {E : Error → Session → Type 0} {P : B → Session → Type 0} where
  continue-Holds :
      {Q : A → Session → Type 0} (f : A → Action B) (r : Result A) (s : Session)
      → Holds E Q (r, s)
      → ((a : A) (s' : Session) → Q a s' → Ensures E P (f a) s')
      → Holds E P (elim r [ ok a ↦ f a s | err e ↦ (err e, s) ])
  continue-Holds f (ok a) s h k = (k a s h).holds
  continue-Holds f (err e) s h k = h

  pub Ensures-bind :
      {Q : A → Session → Type 0} {m : Action A} {f : A → Action B} {s : Session}
      → Ensures E Q m s
      → ((a : A) (s' : Session) → Q a s' → Ensures E P (f a) s')
      → Ensures E P (m >>= f) s
  unfolding ◌>>=◌
  Ensures-bind {m} {f} {s} h k = record { holds = continue-Holds f (m s).0 (m s).1 h.holds k }

module _ {A : Type 0} {E : Error → Session → Type 0} {P : A → Session → Type 0} where
  caught-Holds :
      {F : Error → Session → Type 0} (h : Error → Action A) (r : Result A) (s : Session)
      → Holds F P (r, s)
      → ((e : Error) (s' : Session) → F e s' → Ensures E P (h e) s')
      → Holds E P (elim r [ ok a ↦ (ok a, s) | err e ↦ h e s ])
  caught-Holds h (ok a) s p k = p
  caught-Holds h (err e) s p k = (k e s p).holds

  pub Ensures-catch :
      {F : Error → Session → Type 0} {m : Action A} {h : Error → Action A} {s : Session}
      → Ensures F P m s
      → ((e : Error) (s' : Session) → F e s' → Ensures E P (h e) s')
      → Ensures E P (catch m h) s
  unfolding catch
  Ensures-catch {m} {h} {s} p k = record { holds = caught-Holds h (m s).0 (m s).1 p.holds k }

  pub Ensures-mono :
      {Q : A → Session → Type 0} {F : Error → Session → Type 0} {m : Action A} {s : Session}
      → Ensures F Q m s
      → ((a : A) (s' : Session) → Q a s' → P a s')
      → ((e : Error) (s' : Session) → F e s' → E e s')
      → Ensures E P m s
  Ensures-mono {Q} {F} {m} {s} h p e = record { holds = go (m s).0 (m s).1 h.holds }
    where
      go : (r : Result A) (s' : Session) → Holds F Q (r, s') → Holds E P (r, s')
      go (ok a) s' q = p a s' q
      go (err x) s' q = e x s' q

-- Some call ended in a driver error.
abbrev pub Faulty : Env → Type 0
Faulty env = (n : ℕ) × (env.fails n ≡ true)

-- An error that leaves the committed tables as `d`, for a reason that `R` gives.
abbrev pub Aborts : Db → (Error → Type 0) → Error → Session → Type 0
Aborts d R e s = (s.pool ≡ d) × R e

module _ ⦃env : Env⦄ {d : Db} {R : Error → Type 0} where
  pub Ensures-raise_if :
      (b : Bool) (e : Error) {s : Session}
      → s.pool ≡ d
      → (b ≡ true → R e)
      → Ensures (Aborts d R) (λ _ s'. (s' ≡ s) × (b ≡ false)) (raise_if b e) s
  unfolding raise_if
  Ensures-raise_if true e same r = record { holds = (same, r refl) }
  Ensures-raise_if false e same r = record { holds = (refl, refl) }

answer-Holds :
    {A : Type 0} (E : Error → Session → Type 0) (r : Result A) (s : Session)
    → ((e : Error) → r ≡ err e → E e s)
    → Holds E (λ a s'. (s' ≡ s) × (r ≡ ok a)) (r, s)
answer-Holds E (ok a) s k = (refl, refl)
answer-Holds E (err e) s k = k e refl

module _ ⦃env : Env⦄ {A : Type 0} {E : Error → Session → Type 0} where
  -- A read changes nothing but the count of the calls.
  pub Ensures-read :
      (q : Querier) (f : Db → Result A) (s : Session)
      → (Faulty env → E database (tick s))
      → ((e : Error) → f (view q s) ≡ err e → E e (tick s))
      → Ensures E (λ a s'. (s' ≡ tick s) × (f (view q s) ≡ ok a)) (query q f) s
  unfolding query
  Ensures-read q f s fault k = elim (Bool-cases (env.fails s.clock)) [
    | inl down ↦ record { holds = rw down (fault (s.clock, down)) }
    | inr up ↦ record { holds = rw up (answer-Holds E (f (view q s)) (tick s) k) }
  ]

module _ ⦃env : Env⦄ {d : Db} {R : Error → Type 0} (fault : Faulty env → R database) where
  module _ {A : Type 0} where
    pub Ensures-query :
        (q : Querier) (f : Db → Result A) {s : Session}
        → s.pool ≡ d
        → ((e : Error) → f (view q s) ≡ err e → R e)
        → Ensures (Aborts d R) (λ a s'. (s' ≡ tick s) × (f (view q s) ≡ ok a)) (query q f) s
    Ensures-query q f {s} same k =
        Ensures-read q f s (λ down. (same, fault down)) (λ e h. (same, k e h))

    -- A statement that succeeds on the rows at hand, unless the driver fails.
    pub Ensures-exec :
        (f : ℕ → ℕ → Db → Result (A × Db)) (a : A) (t : Db) {s : Session}
        → s.pool ≡ d
        → f (env.new_id s.clock) (env.now s.clock) s.tx ≡ ok (a, t)
        → Ensures
            (Aborts d R)
            (λ a' s'. (a' ≡ a) × (s' ≡ record (tick s) { tx = t }))
            (exec on_tx f)
            s
    unfolding exec
    Ensures-exec f a t {s} same e = elim (Bool-cases (env.fails s.clock)) [
      | inl down ↦ record { holds = rw down (same, fault (s.clock, down)) }
      | inr up ↦ record { holds = rw (up, e) (refl, refl) }
    ]

  module _ {A : Type 0} where
    written-Holds :
        (r : Result (A × Db)) (s : Session)
        → s.pool ≡ d
        → ((e : Error) → r ≡ err e → R e)
        → Holds
            (Aborts d R)
            (λ a s'. (t : Db) × (r ≡ ok (a, t)) × (s' ≡ record s { tx = t }))
            (elim r [ ok (a, t) ↦ (ok a, record s { tx = t }) | err e ↦ (err e, s) ])
    written-Holds (ok (a, t)) s same k = (t, refl, refl)
    written-Holds (err e) s same k = (same, k e refl)

    -- A statement that the rows may refuse.
    pub Ensures-write :
        (f : ℕ → ℕ → Db → Result (A × Db)) {s : Session}
        → s.pool ≡ d
        → ((e : Error) → f (env.new_id s.clock) (env.now s.clock) s.tx ≡ err e → R e)
        → Ensures
            (Aborts d R)
            (λ a s'.
              (t : Db) × (f (env.new_id s.clock) (env.now s.clock) s.tx ≡ ok (a, t))
              × (s' ≡ record (tick s) { tx = t }))
            (exec on_tx f)
            s
    unfolding exec
    Ensures-write f {s} same k = elim (Bool-cases (env.fails s.clock)) [
      | inl down ↦ record { holds = rw down (same, fault (s.clock, down)) }
      | inr up ↦ record {
        holds =
            rw up (written-Holds (f (env.new_id s.clock) (env.now s.clock) s.tx) (tick s) same k);
      }
    ]

  pub Ensures-begin :
      {s : Session}
      → s.pool ≡ d
      → Ensures (Aborts d R) (λ _ s'. (s'.pool ≡ d) × (s'.tx ≡ d) × (s'.touched ≡ [])) begin s
  unfolding begin
  Ensures-begin {s} same = elim (Bool-cases (env.fails s.clock)) [
    | inl down ↦ record { holds = rw down (same, fault (s.clock, down)) }
    | inr up ↦ record { holds = rw up (same, same, refl) }
  ]

  pub Ensures-commit :
      {s : Session}
      → s.pool ≡ d
      → all_balanced s.touched s.tx.ledger_postings ≡ true
      → Ensures (Aborts d R) (λ _ s'. s'.pool ≡ s.tx) commit s
  unfolding commit
  Ensures-commit {s} same balanced = elim (Bool-cases (env.fails s.clock)) [
    | inl down ↦ record { holds = rw down (same, fault (s.clock, down)) }
    | inr up ↦ record { holds = rw (up, balanced) refl }
  ]
