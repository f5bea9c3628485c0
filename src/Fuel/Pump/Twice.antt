-- ===== src/Fuel/Pump/Twice.antt =====
-- A second confirmation of one pump session (backend/internal/fuel/viu_mock.go).
use sesfikile.Base.{
  ℕ, Bool, true, false, ◌≡◌, refl, sym, ap, ◌∙◌, Option, none, some, List, [], ◌∷◌, map, find?,
  find?-test, inl, inr, Bool-cases, ==_iff,
}
use sesfikile.Fuel.Models.{AuthorizationStatus, confirmed, Authorization}
use sesfikile.Fuel.Pump.{ConfirmResult, has_reference, set_confirmed, confirm_pump}
use sesfikile.Database.Schema.{Db}
use sesfikile.Database.Session.{Env, Session, Result, ok, err}
use sesfikile.Database.Ensures.{Holds, Aborts}
use sesfikile.Fuel.Pump.Sessions.{ConfirmFailure, Settled, Confirmed, confirm_pump-Ensures}

-- The session is there, and confirmed.
Closed : ℕ → Db → Type 0
Closed id d =
    (a : Authorization) × (find? (has_reference id) d.fuel_authorizations ≡ some a)
    × (a.status ≡ confirmed)

confirmed-find? :
    (id now : ℕ) (xs : List Authorization) (a : Authorization)
    → find? (has_reference id) xs ≡ some a
    → (b : Authorization) × (find? (has_reference id) (map (set_confirmed id now) xs) ≡ some b)
      × (b.status ≡ confirmed)
confirmed-find? id now [] a h = cc
confirmed-find? id now (x ∷ xs) a h = elim (Bool-cases (has_reference id x)) [
  | inl e ↦ (record x { status = confirmed; confirmed_at = some now }, rw (e, e) refl, refl)
  | inr e ↦
      let (b, there, done) = confirmed-find? id now xs a (rw e at h) in (b, rw (e, e) there, done)
]

Settled-Closed :
    (id : ℕ) (already : Bool) (a : Authorization) (d d' : Db)
    → find? (has_reference id) d.fuel_authorizations ≡ some a
    → Settled already a d d'
    → Closed id d'
unfolding Closed
Settled-Closed id true a d d' f (done, same) = (a, rw same f, done)
Settled-Closed id false a d d' f (unsettled, (rows, now, later, u, e)) =
    let own : a.id ≡ id =
      (==_iff a.id id).0 (find?-test (has_reference id) d.fuel_authorizations a f) in
    rw (e, own) (confirmed-find? id later d.fuel_authorizations a f)

Closed-Settled :
    (id : ℕ) (already : Bool) (a : Authorization) (d d' : Db)
    → find? (has_reference id) d.fuel_authorizations ≡ some a
    → Closed id d
    → Settled already a d d'
    → d' ≡ d
unfolding Closed
Closed-Settled id true a d d' f c s = s.1
Closed-Settled id false a d d' f (b, g, done) s =
    cc (sym (ap (λ (o : Option Authorization). status_or o) (sym f ∙ g)) ∙ s.0, done)
  where
    status_or : Option Authorization → AuthorizationStatus
    status_or none = confirmed
    status_or (some x) = x.status

module _ ⦃env : Env⦄ where
  confirm_pump-Closed :
      (id : ℕ) (d : Db) (r : Result ConfirmResult) (x : ConfirmResult) (s' : Session)
      → Holds (Aborts d (ConfirmFailure env id d)) (λ r s'. Confirmed id d r s'.pool) (r, s')
      → r ≡ ok x
      → Closed id s'.pool
  confirm_pump-Closed id d (ok r) x s' h e =
      Settled-Closed id r.already_confirmed h.authorization d s'.pool h.found h.settled
  confirm_pump-Closed id d (err y) x s' h e = cc

  unchanged :
      (id : ℕ) (d : Db) (r : Result ConfirmResult) (s' : Session)
      → Holds (Aborts d (ConfirmFailure env id d)) (λ r s'. Confirmed id d r s'.pool) (r, s')
      → Closed id d
      → s'.pool ≡ d
  unchanged id d (ok r) s' h c =
      Closed-Settled id r.already_confirmed h.authorization d s'.pool h.found c h.settled
  unchanged id d (err y) s' h c = h.0

  -- After a confirmation that has succeeded, another one of the same reference on the tables that
  -- it left changes nothing, whether it succeeds or fails.
  pub confirm_pump_twice :
      (id : ℕ) (s s' : Session) (r : ConfirmResult)
      → (confirm_pump id s).0 ≡ ok r
      → s'.pool ≡ (confirm_pump id s).1.pool
      → (confirm_pump id s').1.pool ≡ s'.pool
  confirm_pump_twice id s s' r e same =
      unchanged id s'.pool (confirm_pump id s').0 (confirm_pump id s').1
        (confirm_pump-Ensures id s').holds
        (rw same (
          confirm_pump-Closed id s.pool (confirm_pump id s).0 r (confirm_pump id s).1
            (confirm_pump-Ensures id s).holds e))
