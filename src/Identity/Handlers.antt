-- ===== src/Identity/Handlers.antt =====
-- backend/internal/identity/handlers.go. A body is what encoding/json decodes, or nothing, and
-- strings.TrimSpace is an argument.
pub mod Account
pub mod Checked
use sesfikile.Base.{ℕ, Bool, true, false, not, Option, none, some, ◌||◌, if◌then◌else◌}
use sesfikile.Base.Text.{Text, is_empty}
use sesfikile.Identity.Models.{Role, role_valid, User}
use sesfikile.Identity.Repo.{create_user, get_user_by_phone}
use sesfikile.Identity.Tokens.{Claims, Jwt, issue, Bcrypt, hash_password, verify_password}
use sesfikile.Database.Session.{Env, Error, already_exists}
use sesfikile.Http.{Reply, reply, refuse, Handler, answer, attempt, parsed}

pub record RegisterRequest : Type 0 where
  pub phone : Text
  pub email : Text
  pub password : Text
  pub role : Role

pub record LoginRequest : Type 0 where
  pub phone : Text
  pub password : Text

pub record AuthResponse : Type 0 where
  pub token : Text
  pub user_id : Text
  pub role : Role

pub record MeResponse : Type 0 where
  pub user_id : Text
  pub role : Role

abbrev pub taken_or_failed : {A : Type 0} → Error → Reply A
taken_or_failed already_exists = refuse 409 "a user with this phone or email already exists"
taken_or_failed e = refuse 500 "failed to create user"

-- What the handlers are built with.
pub record Setup : Type 0 where
  pub jwt : Jwt
  pub show_uuid : ℕ → Text
  pub secret : Text
  pub bcrypt : Bcrypt
  pub trim_space : Text → Text

module _ (setup : Setup) where
  -- The end of both handlers: a token for the user, at a time.
  unfoldable pub answer_token : ℕ → ℕ → User → Handler AuthResponse
  answer_token code now user =
      parsed (issue setup.jwt setup.show_uuid setup.secret now user.id user.role)
        (refuse 500 "failed to issue token")
        λ token. answer (
          reply code
            (record { token = token; user_id = setup.show_uuid user.id; role = user.role }))

  abbrev pub email_of : RegisterRequest → Option Text
  email_of req =
      if is_empty (setup.trim_space req.email) then none else some (setup.trim_space req.email)

  abbrev pub is_incomplete : RegisterRequest → Bool
  is_incomplete req =
      is_empty (setup.trim_space req.phone) || is_empty req.password || not (role_valid req.role)

  module _ ⦃env : Env⦄ where
    unfoldable pub register : ℕ → Option RegisterRequest → Handler AuthResponse
    register now body = parsed body (refuse 400 "invalid request body") λ req.
        if is_incomplete req
        then answer (refuse 400 "phone, password, and a valid role are required")
        else parsed (hash_password setup.bcrypt req.password)
            (refuse 500 "failed to process password")
            λ hash.
              attempt (create_user (setup.trim_space req.phone) (email_of req) hash req.role)
                taken_or_failed (answer_token 201 now)

    unfoldable pub check_password : ℕ → LoginRequest → User → Handler AuthResponse
    check_password now req user =
        if not (verify_password setup.bcrypt user.password_hash req.password)
        then answer (refuse 401 "invalid phone or password")
        else answer_token 200 now user

    unfoldable pub login : ℕ → Option LoginRequest → Handler AuthResponse
    login now body = parsed body (refuse 400 "invalid request body") λ req.
        attempt (get_user_by_phone (setup.trim_space req.phone))
          (λ e. refuse 401 "invalid phone or password") (check_password now req)

  unfoldable pub me : Option Claims → Handler MeResponse
  me none = answer (refuse 401 "unauthorized")
  me (some claims) =
      answer (reply 200 (record { user_id = setup.show_uuid claims.user_id; role = claims.role }))
