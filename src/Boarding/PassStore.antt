-- ===== src/Boarding/PassStore.antt =====
-- `PassStore` of backend/internal/boarding/passstore.go: short codes and the tokens they stand for.
-- Times are nanoseconds; `time.Now()` is an argument.
use sesfikile.Base.{
  ℕ, ◌+◌, ◌*◌, ◌^◌, Bool, not, [], ◌∷◌, ◌++◌, any, filter, find?, length, ltb, if◌then◌else◌,
}
use sesfikile.Base.Text.{Text, text_eq}
use sesfikile.Boarding.Models.{IssuedPass}
use sesfikile.Boarding.Code.{normalize_code}
use sesfikile.Wallet.Accounts.{scan}
use sesfikile.Database.Session.{
  Env, Error, unique_violation, no_rows, code_not_found, ok, err, Action, pure, raise, catch, ◌>>=◌,
  ◌>>◌, on_pool, query, exec,
}

abbrev pub sweep_grace : ℕ
sweep_grace = 600 * 10 ^ 9

-- `expires_at < now.Add(-sweepGrace)`
abbrev pub is_swept : ℕ → IssuedPass → Bool
is_swept now p = ltb (p.expires_at + sweep_grace) now

abbrev pub has_code : Text → IssuedPass → Bool
has_code code p = text_eq p.code code

abbrev pub missing_to_code_not_found {ℓ} : {A : Type ℓ} → Error → Action A
missing_to_code_not_found no_rows = raise code_not_found
missing_to_code_not_found e = raise e

module _ ⦃env : Env⦄ where
  -- The code is the table's primary key; `created_at` is the server's clock.
  unfoldable pub store_pass : IssuedPass → Action (Unit {0})
  store_pass p = exec on_pool (λ id now d.
      if any (has_code p.code) d.boarding_pass_codes
      then err unique_violation
      else ok (
        tt,
        record d {
          boarding_pass_codes = d.boarding_pass_codes ++ record p { created_at = now } ∷ [];
        },
      ))

  unfoldable pub cleanup_expired : ℕ → Action ℕ
  cleanup_expired now = exec on_pool (λ id clock d. ok (
    length (filter (is_swept now) d.boarding_pass_codes),
    record d { boarding_pass_codes = filter (λ p. not (is_swept now p)) d.boarding_pass_codes },
  ))

  -- An error of the sweep is ignored.
  unfoldable pub sweep : ℕ → Action (Unit {0})
  sweep now = catch (cleanup_expired now >>= λ count. pure tt) (λ e. pure tt)

  unfoldable pub lookup_code : (to_upper : ℕ → ℕ) → ℕ → Text → Action IssuedPass
  lookup_code to_upper now raw_code =
      sweep now
      >> catch
          (query on_pool
            (λ d. scan (find? (has_code (normalize_code to_upper raw_code)) d.boarding_pass_codes)))
          missing_to_code_not_found
