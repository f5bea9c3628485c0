-- ===== src/Http.antt =====
-- What a handler writes: a status with a body, or a status with the message of an error; and the
-- early returns of the handlers.

pub mod Runs
pub mod Outcome
pub mod Yields
use sesfikile.Base.{ℕ, Bool, Option, none, some, if◌then◌else◌}
use sesfikile.Base.Text.{Text}
use sesfikile.Database.Session.{Error, not_found, Session, Result, ok, err, Action}
use Prim.Native.String.{String}

-- `writeJSON` and `writeError`
pub data Reply {ℓ} (A : Type ℓ) : Type ℓ where
  reply : ℕ → A → Reply A
  refuse : ℕ → String → Reply A

abbrev pub status {ℓ} : {A : Type ℓ} → Reply A → ℕ
status (reply n a) = n
status (refuse n message) = n

abbrev pub Handler : Type 0 → Type 0
Handler A = Session → Reply A × Session

unfoldable pub answer : {B : Type 0} → Reply B → Handler B
answer r s = (r, s)

module _ {A B : Type 0} where
  -- `if err != nil { writeError(w, …); return }`
  unfoldable pub attempt : Action A → (Error → Reply B) → (A → Handler B) → Handler B
  attempt m refusal k s = let (r, s') = m s in elim r [ ok a ↦ k a s' | err e ↦ (refusal e, s') ]

  -- `v, err := parse(…)`
  unfoldable pub parsed : Option A → Reply B → (A → Handler B) → Handler B
  parsed none refusal k s = (refusal, s)
  parsed (some a) refusal k s = k a s

-- An error that is `ErrNotFound` is answered by 404, any other by 500.
abbrev pub missing_or_failed {ℓ} : {B : Type ℓ} → String → String → Error → Reply B
missing_or_failed missing failed not_found = refuse 404 missing
missing_or_failed missing failed e = refuse 500 failed

abbrev pub failed {ℓ} : {B : Type ℓ} → String → Error → Reply B
failed message e = refuse 500 message

-- `uuid.Parse` and `String` of github.com/google/uuid.
pub record Uuid : Type 0 where
  pub parse : Text → Option ℕ
  pub show : ℕ → Text
