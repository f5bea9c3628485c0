-- ===== src/Identity/Handlers/Account.antt =====
-- From Register to Login to a request with the token.
use sesfikile.Base.{
  ℕ, ◌+◌, ◌<◌, Bool, true, false, Option, none, some, List, [], ◌∷◌, ◌++◌, any, find?, ◌||◌, ◌≡◌,
  refl, sym, subst, inl, inr, Bool-cases, ap, ◌∙◌, arith, find?-append_none,
}
use sesfikile.Base.Text.{Text, IsAscii, text_eq, text_eq_refl, eq_of_text_eq}
use sesfikile.Identity.Models.{Role, role_commuter, role_driver, role_owner, role_valid, User}
use sesfikile.Identity.Repo.{
  same_email, add_user, taken_to_already_exists, create_user, get_user_by_phone,
}
use sesfikile.Identity.Tokens.{
  IsJwt, token_ttl, claims_for, issue, parse, parse-issue, IsBcrypt, hash_password, verify_password,
}
use sesfikile.Identity.Handlers.{
  RegisterRequest, AuthResponse, Setup, answer_token, email_of, is_incomplete, register,
  check_password, login,
}
use sesfikile.Database.Session.{Env, Session, ok, on_pool, tick}
use sesfikile.Database.Healthy.{IsUp, run_lookup, run_exec, run_catch}
use sesfikile.Http.{Reply, reply, answer, parsed}
use sesfikile.Http.Runs.{run_attempt}

abbrev pub has_phone : Text → User → Bool
has_phone phone u = text_eq u.phone phone

abbrev pub is_taken : Text → Option Text → User → Bool
is_taken phone email u = text_eq u.phone phone || same_email u.email email

find?-fresh :
    (phone : Text) (email : Option Text) (users : List User)
    → any (is_taken phone email) users ≡ false
    → find? (has_phone phone) users ≡ none
find?-fresh phone email [] h = refl
find?-fresh phone email (u ∷ users) h = ground (arith, find?-fresh phone email users)

role-IsAscii : (role : Role) → role_valid role ≡ true → IsAscii role
unfolding role_valid
role-IsAscii role h = elim (Bool-cases (text_eq role role_commuter)) [
  | inl e ↦ subst IsAscii (sym (eq_of_text_eq role role_commuter e)) (ground arith)
  | inr e ↦ elim (Bool-cases (text_eq role role_driver)) [
    | inl f ↦ subst IsAscii (sym (eq_of_text_eq role role_driver f)) (ground arith)
    | inr f ↦ subst IsAscii (sym (eq_of_text_eq role role_owner (ground (arith, h)))) (ground arith)
  ]
]

module _ (setup : Setup) ⦃env : Env⦄ (up : IsUp env) where
  -- The row that a registration adds.
  abbrev pub new_user : RegisterRequest → Text → Session → User
  new_user req hash s = record {
    id = env.new_id s.clock;
    phone = setup.trim_space req.phone;
    email = email_of setup req;
    password_hash = hash;
    role = req.role;
    created_at = env.now s.clock;
    updated_at = env.now s.clock;
  }

  abbrev pub registered : RegisterRequest → Text → Session → Session
  registered req hash s = record (tick s) {
    pool = record s.pool { users = s.pool.users ++ new_user req hash s ∷ [] };
  }

  run_answer_token :
      (code now : ℕ) (u : User) (t : Text) (s : Session)
      → issue setup.jwt setup.show_uuid setup.secret now u.id u.role ≡ some t
      → answer_token setup code now u s
        ≡ (reply code (record { token = t; user_id = setup.show_uuid u.id; role = u.role }), s)
  unfolding answer_token parsed answer
  run_answer_token code now u t s h = rw (answer_token, h) refl

  run_create_user :
      (req : RegisterRequest) (hash : Text) (s : Session)
      → role_valid req.role ≡ true
      → any (is_taken (setup.trim_space req.phone) (email_of setup req)) s.pool.users ≡ false
      → create_user (setup.trim_space req.phone) (email_of setup req) hash req.role s
        ≡ (ok (new_user req hash s), registered req hash s)
  unfolding create_user add_user
  run_create_user req hash s valid fresh =
      run_catch _ s (registered req hash s) {a = new_user req hash s} taken_to_already_exists
        (run_exec up on_pool _ s (rw (add_user, valid, fresh) refl))

  run_register :
      (now : ℕ) (req : RegisterRequest) (hash t : Text) (s : Session)
      → is_incomplete setup req ≡ false
      → hash_password setup.bcrypt req.password ≡ some hash
      → any (is_taken (setup.trim_space req.phone) (email_of setup req)) s.pool.users ≡ false
      → issue setup.jwt setup.show_uuid setup.secret now (env.new_id s.clock) req.role ≡ some t
      → register setup now (some req) s ≡ (
        reply 201
            (record { token = t; user_id = setup.show_uuid (env.new_id s.clock); role = req.role }),
        registered req hash s,
      )
  unfolding register parsed
  run_register now req hash t s whole hashed fresh signed =
      let valid : role_valid req.role ≡ true = ground (arith, whole) in
      rw (register, whole, hashed)
        (run_attempt (create_user (setup.trim_space req.phone) (email_of setup req) hash req.role) s
          (registered req hash s) _ _ {a = new_user req hash s}
          (run_create_user req hash s valid fresh)
          (run_answer_token 201 now (new_user req hash s) t (registered req hash s) signed))

  run_get_user :
      (req : RegisterRequest) (hash : Text) (s : Session)
      → any (is_taken (setup.trim_space req.phone) (email_of setup req)) s.pool.users ≡ false
      → get_user_by_phone (setup.trim_space req.phone) (registered req hash s)
        ≡ (ok (new_user req hash s), tick (registered req hash s))
  unfolding get_user_by_phone
  run_get_user req hash s fresh =
      run_lookup up on_pool (λ d. find? (has_phone (setup.trim_space req.phone)) d.users)
        (registered req hash s)
      ∙ rw
          (
            find?-append_none (has_phone (setup.trim_space req.phone)) s.pool.users
                (new_user req hash s ∷ []) (find?-fresh _ _ s.pool.users fresh),
            text_eq_refl (setup.trim_space req.phone),
          )
          refl

  run_login :
      (later : ℕ) (req : RegisterRequest) (hash t : Text) (s : Session)
      → any (is_taken (setup.trim_space req.phone) (email_of setup req)) s.pool.users ≡ false
      → verify_password setup.bcrypt hash req.password ≡ true
      → issue setup.jwt setup.show_uuid setup.secret later (env.new_id s.clock) req.role ≡ some t
      → login setup later
          (some (record { phone = req.phone; password = req.password }))
          (registered req hash s)
        ≡ (
          reply 200 (record {
            token = t;
            user_id = setup.show_uuid (env.new_id s.clock);
            role = req.role;
          }),
          tick (registered req hash s),
        )
  unfolding login check_password parsed
  run_login later req hash t s fresh matches signed =
      run_attempt (get_user_by_phone (setup.trim_space req.phone)) (registered req hash s)
        (tick (registered req hash s)) _ _ {a = new_user req hash s} (run_get_user req hash s fresh)
        (rw (check_password, matches)
          (run_answer_token 200 later (new_user req hash s) t (tick (registered req hash s))
            signed))

  -- While the database answers: a complete registration under a phone and an email that are free,
  -- whose password bcrypt hashes and whose token can be signed, is answered by 201 with that token
  -- and adds one user. A login with the same phone and password, whose token can be signed, is then
  -- answered by 200 for that user and role, and Parse accepts its token, with the claims of the user
  -- and the role, until 24 hours have passed. It is relied on that bcrypt matches a hash that it
  -- made, that golang-jwt reads a token that it signed, under the key that Parse gives it for an
  -- HMAC method, and that uuids are printed in ASCII.
  pub login-register :
      IsJwt setup.jwt
      → IsBcrypt setup.bcrypt
      → ((n : ℕ) → IsAscii (setup.show_uuid n))
      → (now later : ℕ) (req : RegisterRequest) (hash t t' : Text) (s : Session)
      → is_incomplete setup req ≡ false
      → hash_password setup.bcrypt req.password ≡ some hash
      → any (is_taken (setup.trim_space req.phone) (email_of setup req)) s.pool.users ≡ false
      → issue setup.jwt setup.show_uuid setup.secret now (env.new_id s.clock) req.role ≡ some t
      → issue setup.jwt setup.show_uuid setup.secret later (env.new_id s.clock) req.role ≡ some t'
      → (register setup now (some req) s ≡ (
        reply 201
            (record { token = t; user_id = setup.show_uuid (env.new_id s.clock); role = req.role }),
        registered req hash s,
      ))
        × ((login setup later
              (some (record { phone = req.phone; password = req.password }))
              (registered req hash s)).0
            ≡ reply 200 (record {
              token = t';
              user_id = setup.show_uuid (env.new_id s.clock);
              role = req.role;
            }))
        × ((at : ℕ)
            → at < later + token_ttl
            → parse setup.jwt setup.show_uuid setup.secret at t'
              ≡ some (
                  claims_for setup.jwt setup.show_uuid setup.secret later
                    (env.new_id s.clock)
                    req.role))
  unfolding hash_password verify_password
  login-register jwt bcrypt shown now later req hash t t' s whole hashed fresh signed signed' = (
    run_register now req hash t s whole hashed fresh signed,
    ap (λ (r : Reply AuthResponse × Session). r.0)
        (run_login later req hash t' s fresh (bcrypt req.password hash hashed) signed'),
    λ at fresh'.
        parse-issue setup.jwt setup.show_uuid setup.secret jwt later at (env.new_id s.clock)
          req.role t' (role-IsAscii req.role (ground (arith, whole))) (shown (env.new_id s.clock))
          signed' fresh',
  )
