-- ===== src/Http/Yields.antt =====
-- What a handler that replies has seen: the calls that returned and the values that were read.
use sesfikile.Base.{Option, none, some, ◌≡◌, refl}
use sesfikile.Database.Session.{Error, Session, Result, ok, err, Action}
use sesfikile.Http.{Reply, reply, refuse, Handler, attempt, parsed}
use Prim.Native.String.{String}
use Prim.Native.Nat.{ℕ}

-- `P` of the body of a reply; nothing of a refusal.
abbrev pub Yields : {B : Type 0} → (B → Session → Type 0) → Reply B × Session → Type 0
Yields P (reply n b, s) = P b s
Yields P (refuse n message, s) = Unit

module _ {A B : Type 0} (P : B → Session → Type 0) where
  pub attempt-Yields :
      (m : Action A) (refusal : Error → Reply B) (k : A → Handler B) (s : Session)
      → ((e : Error) (s' : Session) → Yields P (refusal e, s'))
      → ((a : A) (s' : Session) → m s ≡ (ok a, s') → Yields P (k a s'))
      → Yields P (attempt m refusal k s)
  unfolding attempt
  attempt-Yields m refusal k s refused done = go (m s).0 (m s).1 refl
    where
      go :
          (r : Result A) (s' : Session)
          → m s ≡ (r, s')
          → Yields P (elim r [ ok a ↦ k a s' | err e ↦ (refusal e, s') ])
      go (ok a) s' h = done a s' h
      go (err e) s' h = refused e s'

  pub parsed-Yields :
      (x : Option A) (status : ℕ) (message : String) (k : A → Handler B) (s : Session)
      → ((a : A) → x ≡ some a → Yields P (k a s))
      → Yields P (parsed x (refuse status message) k s)
  unfolding parsed
  parsed-Yields none status message k s h = tt
  parsed-Yields (some a) status message k s h = h a refl
