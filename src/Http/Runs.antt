-- ===== src/Http/Runs.antt =====
-- The reply of a handler by what its calls return.
use sesfikile.Base.{◌≡◌, ap, ◌∙◌}
use sesfikile.Database.Session.{Error, Session, Result, ok, err, Action}
use sesfikile.Http.{Reply, Handler, attempt}

module _ {A B : Type 0} (m : Action A) (s s' : Session) (refusal : Error → Reply B)
    (k : A → Handler B) where
  finish : Result A × Session → Reply B × Session
  finish r = elim r.0 [ ok a ↦ k a r.1 | err e ↦ (refusal e, r.1) ]

  pub run_attempt :
      {a : A} {r : Reply B × Session} → m s ≡ (ok a, s') → k a s' ≡ r → attempt m refusal k s ≡ r
  unfolding attempt finish
  run_attempt h e = ap finish h ∙ e

  pub run_attempt_err : {e : Error} → m s ≡ (err e, s') → attempt m refusal k s ≡ (refusal e, s')
  unfolding attempt finish
  run_attempt_err h = ap finish h
