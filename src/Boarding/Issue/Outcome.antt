-- ===== src/Boarding/Issue/Outcome.antt =====
-- What IssuePass answers, and what it has stored.
use Prim.Native.String.{String}
use sesfikile.Base.{
  ℕ, zero, suc, true, false, Option, none, some, List, [], ◌∷◌, ◌++◌, map, any, ◌≡◌, ◌⊎◌, inl, inr,
  refl, ap, sym, subst, Bool-cases, Option-cases, arith,
}
use sesfikile.Base.Text.{Text, is_empty}
use sesfikile.Boarding.Models.{PassPayload, IssuedPass}
use sesfikile.Boarding.Code.{letter, generate_code}
use sesfikile.Boarding.Token.{sign}
use sesfikile.Boarding.PassStore.{has_code, store_pass}
use sesfikile.Boarding.Issue.{
  IssuePassResponse, Issuer, is_unique_violation, pass_of, answer_code, try_codes, sign_and_store,
  max_code_generation_attempts,
}
use sesfikile.Database.Schema.{Db}
use sesfikile.Database.Session.{
  Env, Session, database, unique_violation, Result, ok, err, exec, tick,
}
use sesfikile.Http.{Reply, reply, refuse, answer, parsed}

-- The tables with one more pass.
abbrev pub with_pass : IssuedPass → ℕ → Db → Db
with_pass p at d = record d {
  boarding_pass_codes = d.boarding_pass_codes ++ record p { created_at = at } ∷ [];
}

module _ ⦃env : Env⦄ where
  -- A pass is stored under a free code, or refused under a taken one, or the call failed.
  pub store_cases :
      (p : IssuedPass) (s : Session)
      → ((any (has_code p.code) s.pool.boarding_pass_codes ≡ false)
          × (store_pass p s
              ≡ (ok tt, record (tick s) { pool = with_pass p (env.now s.clock) s.pool })))
        ⊎ ((any (has_code p.code) s.pool.boarding_pass_codes ≡ true)
            × (store_pass p s ≡ (err unique_violation, tick s)))
        ⊎ ((env.fails s.clock ≡ true) × (store_pass p s ≡ (err database, tick s)))
  unfolding store_pass exec
  store_cases p s = elim (Bool-cases (env.fails s.clock)) [
    | inl down ↦ inr (inr (down, rw (store_pass, exec, down) refl))
    | inr up ↦ elim (Bool-cases (any (has_code p.code) s.pool.boarding_pass_codes)) [
      | inl taken ↦ inr (inl (taken, rw (store_pass, exec, up, taken) refl))
      | inr free ↦ inl (free, rw (store_pass, exec, up, free) refl)
    ]
  ]

-- Every buffer that is drawn has some bytes; `GenerateCode` asks for eight.
abbrev pub IsFilled : Issuer → Type 0
IsFilled h = (i : ℕ) (buf : List ℕ) → h.random i ≡ some buf → is_empty buf ≡ false

is_empty-map : (f : ℕ → ℕ) (xs : List ℕ) → is_empty (map f xs) ≡ is_empty xs
is_empty-map f [] = refl
is_empty-map f (x ∷ xs) = refl

pub candidate_full :
    (r : Option (List ℕ)) (candidate : Text)
    → ((buf : List ℕ) → r ≡ some buf → is_empty buf ≡ false)
    → generate_code r ≡ some candidate
    → is_empty candidate ≡ false
unfolding generate_code
candidate_full none candidate full e = cc
candidate_full (some buf) candidate full e = ground (arith, is_empty-map letter buf, full buf refl)

module _ (h : Issuer) ⦃env : Env⦄ (payload : PassPayload) (token : Text) where
  -- A round by what the store returns for its candidate.
  abbrev step : ℕ → ℕ → Text → Result (Unit {0}) × Session → Reply IssuePassResponse × Session
  step n i candidate r = elim r.0 [
    | ok done ↦ answer_code h payload token candidate r.1
    | err e ↦ elim (is_unique_violation e) [
      | true ↦ try_codes h n (suc i) payload token r.1
      | false ↦ (refuse 500 "failed to issue boarding code", r.1)
    ]
  ]

  pub run_step :
      (n i : ℕ) (s : Session) (candidate : Text) (r : Result (Unit {0}) × Session)
      → generate_code (h.random i) ≡ some candidate
      → store_pass (pass_of h payload token candidate) s ≡ r
      → try_codes h (suc n) i payload token s ≡ step n i candidate r
  unfolding try_codes
  run_step n i s candidate r drawn e = rw (try_codes, drawn) (ap (step n i candidate) e)

module _ (h : Issuer) (before : Db) where
  abbrev pub IsUnchanged : Reply IssuePassResponse × Session → Type 0
  IsUnchanged r = (r.1.pool ≡ before) × (n : ℕ) × (message : String) × (r.0 ≡ refuse n message)

  -- The pass is stored under a code that was free, and is the one answered.
  abbrev pub IsStored : PassPayload → Text → Reply IssuePassResponse × Session → Type 0
  IsStored payload token r =
      (code : Text) × (at : ℕ) × (any (has_code code) before.boarding_pass_codes ≡ false)
      × (r.0
          ≡ reply 201 (record {
            pass_token = token;
            short_code = code;
            expires_at = h.rfc3339 payload.expires_at;
            fare_cents = payload.fare_cents;
          }))
      × (r.1.pool ≡ record before {
        boarding_pass_codes =
            before.boarding_pass_codes
            ++ record {
              code = code;
              pass_token = token;
              nonce = payload.nonce;
              commuter_id = payload.commuter_id;
              route_id = payload.route_id;
              expires_at = payload.expires_at;
              created_at = at;
            }
              ∷ [];
      })

  abbrev Ends : PassPayload → Text → Reply IssuePassResponse × Session → Type 0
  Ends payload token r = IsUnchanged r ⊎ IsStored payload token r

  module _ ⦃env : Env⦄ (filled : IsFilled h) where
    try_codes-Ends :
        (n i : ℕ) (payload : PassPayload) (token : Text) (s : Session)
        → s.pool ≡ before
        → Ends payload token (try_codes h n i payload token s)
    unfolding try_codes answer
    try_codes-Ends zero i payload token s same = inl (same, 500, _, refl)
    try_codes-Ends (suc n) i payload token s same =
        elim (Option-cases (generate_code (h.random i))) [
          | inl none_drawn ↦ rw (try_codes, none_drawn) (inl (same, 500, _, refl))
          | inr (candidate, drawn) ↦ elim (store_cases (pass_of h payload token candidate) s) [
            | inl (free, e) ↦
                let full : is_empty candidate ≡ false =
                  candidate_full (h.random i) candidate (filled i) drawn in
                subst (Ends payload token)
                  (sym (run_step h payload token n i s candidate _ drawn e))
                  (rw (full, same) (inr (candidate, env.now s.clock, rw same at free, refl, refl)))
            | inr (inl (taken, e)) ↦
                subst (Ends payload token)
                  (sym (run_step h payload token n i s candidate _ drawn e))
                  (try_codes-Ends n (suc i) payload token (tick s) same)
            | inr (inr (down, e)) ↦
                subst (Ends payload token)
                  (sym (run_step h payload token n i s candidate _ drawn e))
                  (inl (same, 500, _, refl))
          ]
        ]

    pub sign_and_store-Ends :
        (payload : PassPayload) (s : Session)
        → s.pool ≡ before
        → IsUnchanged (sign_and_store h payload s)
          ⊎ (token : Text) × (sign h.codec h.secret payload ≡ some token)
            × IsStored payload token (sign_and_store h payload s)
    unfolding sign_and_store parsed
    sign_and_store-Ends payload s same = elim (Option-cases (sign h.codec h.secret payload)) [
      | inl unsigned ↦ inl (rw (sign_and_store, unsigned) (same, 500, _, refl))
      | inr (token, signed) ↦
          elim (try_codes-Ends max_code_generation_attempts 0 payload token s same) [
            | inl kept ↦ inl (rw (sign_and_store, signed) kept)
            | inr stored ↦ inr (token, signed, rw (sign_and_store, signed) stored)
          ]
    ]
