-- ===== src/Http/Outcome.antt =====
-- A handler by what its calls ensure.
use sesfikile.Database.Session.{Error, Session, Result, ok, err, Action}
use sesfikile.Database.Ensures.{Ensures, Holds}
use sesfikile.Http.{Reply, Handler, attempt}

module _ {A B : Type 0} {E : Error → Session → Type 0} {P : A → Session → Type 0} where
  either :
      (R : Reply B × Session → Type 0) (refusal : Error → Reply B) (k : A → Handler B)
      (r : Result A) (s : Session)
      → Holds E P (r, s)
      → ((a : A) (s' : Session) → P a s' → R (k a s'))
      → ((e : Error) (s' : Session) → E e s' → R (refusal e, s'))
      → R (elim r [ ok a ↦ k a s | err e ↦ (refusal e, s) ])
  either R refusal k (ok a) s h done refused = done a s h
  either R refusal k (err e) s h done refused = refused e s h

  -- What holds of every answer holds of the handler's.
  pub attempt-Ensures :
      (R : Reply B × Session → Type 0) (m : Action A) (refusal : Error → Reply B)
      (k : A → Handler B) (s : Session)
      → Ensures E P m s
      → ((a : A) (s' : Session) → P a s' → R (k a s'))
      → ((e : Error) (s' : Session) → E e s' → R (refusal e, s'))
      → R (attempt m refusal k s)
  unfolding attempt
  attempt-Ensures R m refusal k s h done refused =
      either R refusal k (m s).0 (m s).1 h.holds done refused
