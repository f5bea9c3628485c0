-- ===== src/Boarding/Issue/Retries.antt =====
-- The retry loop of IssuePass while the database answers.
use sesfikile.Base.{
  ℕ, zero, suc, ◌+◌, ◌<◌, true, false, some, any, ◌≡◌, inl, inr, refl, sym, subst, arith,
}
use sesfikile.Base.Text.{Text}
use sesfikile.Boarding.Models.{PassPayload}
use sesfikile.Boarding.Code.{generate_code}
use sesfikile.Boarding.Token.{sign}
use sesfikile.Boarding.PassStore.{has_code}
use sesfikile.Boarding.Issue.{
  IssuePassResponse, Issuer, max_code_generation_attempts, pass_of, response_of, try_codes,
  sign_and_store,
}
use sesfikile.Boarding.Issue.Outcome.{IsFilled, candidate_full, store_cases, run_step}
use sesfikile.Database.Session.{Env, Session, tick}
use sesfikile.Database.Healthy.{IsUp}
use sesfikile.Http.{Reply, reply, answer, parsed}

-- `rand.Read` does not fail.
abbrev pub Draws : Issuer → Type 0
Draws h = (i : ℕ) → (code : Text) × (generate_code (h.random i) ≡ some code)

module _ (h : Issuer) ⦃env : Env⦄ (up : IsUp env) (filled : IsFilled h) (draws : Draws h) where
  -- The code of an attempt is not taken.
  abbrev pub IsFree : ℕ → Session → Type 0
  IsFree i s = any (has_code (draws i).0) s.pool.boarding_pass_codes ≡ false

  abbrev Issues : PassPayload → Text → Reply IssuePassResponse × Session → Type 0
  Issues payload token r = (k : ℕ) × (r.0 ≡ reply 201 (response_of h payload token (draws k).0))

  try_codes-Issues :
      (n i k : ℕ) (payload : PassPayload) (token : Text) (s : Session)
      → k < n
      → IsFree (i + k) s
      → Issues payload token (try_codes h n i payload token s)
  unfolding answer
  try_codes-Issues zero i k payload token s lt free = absurd (omega arith)
  try_codes-Issues (suc n) i k payload token s lt free =
      elim (store_cases (pass_of h payload token (draws i).0) s) [
        | inl (unused, e) ↦
            subst (Issues payload token)
              (sym (run_step h payload token n i s (draws i).0 _ (draws i).1 e))
              (i, rw (candidate_full (h.random i) (draws i).0 (filled i) (draws i).1) refl)
        | inr (inl (taken, e)) ↦
            subst (Issues payload token)
              (sym (run_step h payload token n i s (draws i).0 _ (draws i).1 e))
              (later n i k payload token s lt free taken (try_codes-Issues n (suc i)))
        | inr (inr (down, e)) ↦ cc (down, up s.clock)
      ]
    where
      later :
          (n i k : ℕ) (payload : PassPayload) (token : Text) (s : Session)
          → k < suc n
          → IsFree (i + k) s
          → any (has_code (draws i).0) s.pool.boarding_pass_codes ≡ true
          → ((j : ℕ) (p : PassPayload) (t : Text) (s' : Session)
              → j < n
              → IsFree (suc i + j) s'
              → Issues p t (try_codes h n (suc i) p t s'))
          → Issues payload token (try_codes h n (suc i) payload token (tick s))
      later n i zero payload token s lt free taken go =
          let same : i + 0 ≡ i = omega arith in absurd (cc (rw same at free, taken))
      later n i (suc j) payload token s lt free taken go =
          let same : i + suc j ≡ suc i + j = omega arith in
          go j payload token (tick s) (omega arith) (rw same at free)

  -- While the database answers, and codes can be drawn, the loop ends with a pass as soon as a
  -- drawn code is not taken: if any of the codes of the five attempts is free, a signed pass is
  -- answered by 201 under the code of one of the attempts.
  pub sign_and_store-Issues :
      (payload : PassPayload) (token : Text) (k : ℕ) (s : Session)
      → sign h.codec h.secret payload ≡ some token
      → k < max_code_generation_attempts
      → IsFree k s
      → (i : ℕ) × ((sign_and_store h payload s).0
          ≡ reply 201 (response_of h payload token (draws i).0))
  unfolding sign_and_store parsed
  sign_and_store-Issues payload token k s signed lt free =
      rw (sign_and_store, signed)
        (try_codes-Issues max_code_generation_attempts 0 k payload token s lt (rw zero_plus free))
    where
      zero_plus : 0 + k ≡ k
      zero_plus = omega arith
