-- ===== src/Identity/Handlers/Checked.antt =====
-- What a login has checked.
use sesfikile.Base.{
  ℕ, Bool, true, false, Option, none, some, find?, ◌≡◌, ◌⊎◌, inl, inr, refl, Bool-cases,
  Option-cases,
}
use sesfikile.Base.Text.{Text}
use sesfikile.Identity.Models.{User}
use sesfikile.Identity.Repo.{get_user_by_phone}
use sesfikile.Identity.Tokens.{issue, verify_password}
use sesfikile.Identity.Handlers.{
  LoginRequest, AuthResponse, Setup, answer_token, check_password, login,
}
use sesfikile.Identity.Handlers.Account.{has_phone}
use sesfikile.Database.Session.{Env, Session, database, not_found, ok, on_pool, tick}
use sesfikile.Database.Healthy.{lookup_cases}
use sesfikile.Http.{Reply, reply, refuse, answer, parsed}
use sesfikile.Http.Runs.{run_attempt, run_attempt_err}

module _ (setup : Setup) ⦃env : Env⦄ (now : ℕ) (req : LoginRequest) (s : Session) where
  abbrev pub user_found : Option User
  user_found = find? (has_phone (setup.trim_space req.phone)) s.pool.users

  abbrev pub token_of : User → Option Text
  token_of u = issue setup.jwt setup.show_uuid setup.secret now u.id u.role

  abbrev pub logged_in : Reply AuthResponse × Session
  logged_in = login setup now (some req) s

  -- The user with the phone is `u`, and the password is theirs or not.
  abbrev pub Tried : User → Bool → Type 0
  Tried u right =
      (user_found ≡ some u) × (verify_password setup.bcrypt u.password_hash req.password ≡ right)

  run-Tried :
      (u : User) (right : Bool) (r : Reply AuthResponse)
      → Tried u right
      → get_user_by_phone (setup.trim_space req.phone) s ≡ (ok u, tick s)
      → check_password setup now req u (tick s) ≡ (r, tick s)
      → logged_in ≡ (r, tick s)
  unfolding login parsed
  run-Tried u right r tried h e =
      run_attempt (get_user_by_phone (setup.trim_space req.phone)) s (tick s) _ _ {a = u} h e

  -- Whichever calls fail, a login ends in one of four ways, and writes nothing. It is answered by
  -- 200 with a token of a stored user who has the trimmed phone and whose hash the password
  -- matches. It is 500 if the token for such a user cannot be signed. It is 401 if the password
  -- does not match, and if no user has the phone or the lookup failed in the database.
  pub login-Tried :
      ((u : User) × (t : Text) × Tried u true
        × (token_of u ≡ some t)
        × (logged_in ≡ (
          reply 200 (record { token = t; user_id = setup.show_uuid u.id; role = u.role }),
          tick s,
        )))
      ⊎ ((u : User) × Tried u true
          × (token_of u ≡ none)
          × (logged_in ≡ (refuse 500 "failed to issue token", tick s)))
      ⊎ ((u : User) × Tried u false
          × (logged_in ≡ (refuse 401 "invalid phone or password", tick s)))
      ⊎ (((user_found ≡ none) ⊎ (env.fails s.clock ≡ true))
          × (logged_in ≡ (refuse 401 "invalid phone or password", tick s)))
  unfolding check_password answer_token parsed answer get_user_by_phone login
  login-Tried =
      elim (lookup_cases on_pool (λ d. find? (has_phone (setup.trim_space req.phone)) d.users) s) [
        | inl (u, there, h) ↦
            elim (Bool-cases (verify_password setup.bcrypt u.password_hash req.password)) [
              | inl right ↦ elim (Option-cases (token_of u)) [
                | inl unsigned ↦ inr (
                    inl (
                      u,
                      (there, right),
                      unsigned,
                      run-Tried u true _ (there, right) h
                          (rw (check_password, right, answer_token, unsigned) refl),
                    ))
                | inr (t, signed) ↦ inl (
                  u,
                  t,
                  (there, right),
                  signed,
                  run-Tried u true _ (there, right) h
                      (rw (check_password, right, answer_token, signed) refl),
                )
              ]
              | inr wrong ↦ inr (
                  inr (
                    inl (
                      u,
                      (there, wrong),
                      run-Tried u false _ (there, wrong) h (rw (check_password, wrong) refl),
                    )))
            ]
        | inr (inl (gone, h)) ↦ inr (
            inr (
              inr (
                inl gone,
                run_attempt_err (get_user_by_phone (setup.trim_space req.phone)) s (tick s) _ _
                    {e = not_found} h,
              )))
        | inr (inr (down, h)) ↦ inr (
            inr (
              inr (
                inr down,
                run_attempt_err (get_user_by_phone (setup.trim_space req.phone)) s (tick s) _ _
                    {e = database} h,
              )))
      ]
