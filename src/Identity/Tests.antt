-- ===== src/Identity/Tests.antt =====
-- A commuter who registers and logs in (backend/internal/identity/handlers.go).
use sesfikile.Base.{
  ℕ, ◌+◌, ◌<◌, ltb, ◌&&◌, if◌then◌else◌, true, false, Option, none, some, [], ◌∷◌, ◌≡◌, ◌⊎◌, refl,
  arith,
}
use sesfikile.Base.Text.{Text, bytes, text_eq, text_eq_refl, eq_of_text_eq}
use sesfikile.Identity.Models.{role_valid, role_commuter, role_owner, User}
use sesfikile.Identity.Tokens.{
  Claims, Jwt, IsJwt, token_ttl, claims_for, issue, parse, Bcrypt, IsBcrypt, hash_password,
}
use sesfikile.Identity.Middleware.{split_space, is_bearer, bearer}
use sesfikile.Identity.Middleware.Guard.{guarded, Authorized, IsAllowed, require_auth-require_role}
use sesfikile.Identity.Handlers.{RegisterRequest, LoginRequest, Setup, register, login, me}
use sesfikile.Identity.Handlers.Account.{registered, login-register}
use sesfikile.Identity.Handlers.Checked.{user_found, token_of, logged_in, Tried, login-Tried}
use sesfikile.Database.Schema.{Db}
use sesfikile.Database.Session.{Env, Session, tick}
use sesfikile.Http.{reply, refuse}

instance abbrev healthy : Env
healthy = record { fails = λ n. false; new_id = λ n. n; now = λ n. n; collates = λ a b. true }

-- A token that is its claims, one after the other; its secret is not looked at.
abbrev encode : Claims → Text
encode c = c.user_id ∷ c.issued_at ∷ c.expires_at ∷ []

abbrev accepted : ℕ → Text → Option Claims
accepted now (u ∷ i ∷ e ∷ []) =
    if ltb now e
    then some
        (record { user_id = u; role = role_commuter; issued_at = i; expires_at = e; subject = [] })
    else none
accepted now _ = none

abbrev open_jwt : Jwt
open_jwt = record {
  signed = λ secret c.
      if text_eq c.role role_commuter && text_eq c.subject [] then some (encode c) else none;
  parse_with_claims = λ key now t. elim (accepted now t) [ none ↦ none | some c ↦ some (c, true) ];
}

same_claims :
    (c : Claims)
    → c.role ≡ role_commuter
    → c.subject ≡ []
    → record {
      user_id = c.user_id;
      role = role_commuter;
      issued_at = c.issued_at;
      expires_at = c.expires_at;
      subject = [];
    }
      ≡ c
same_claims c r s = ground arith

open_jwt-IsJwt : IsJwt open_jwt
open_jwt-IsJwt key secret c t now plain shown keyed h fresh =
    ground (arith, eq_of_text_eq c.role role_commuter, eq_of_text_eq c.subject [], same_claims c)

abbrev plain_bcrypt : Bcrypt
plain_bcrypt = record { generate = λ p. some p; compare_hash = λ h p. text_eq h p }

plain_bcrypt-IsBcrypt : IsBcrypt plain_bcrypt
plain_bcrypt-IsBcrypt password hash h = ground (arith, text_eq_refl password)

abbrev setup : Setup
setup = record {
  jwt = open_jwt;
  show_uuid = λ n. [];
  secret = bytes "s";
  bcrypt = plain_bcrypt;
  trim_space = λ t. t;
}

abbrev empty : Db
empty = record {
  users = [];
  drivers = [];
  vehicles = [];
  vehicle_assignments = [];
  accounts = [];
  ledger_transactions = [];
  ledger_postings = [];
  vehicle_fuel_quotas = [];
  fuel_authorizations = [];
  boarding_pass_codes = [];
  stops = [];
  routes = [];
  route_legs = [];
  route_geometries = [];
}

abbrev start : Session
start = record { pool = empty; tx = empty; touched = []; clock = 7 }

abbrev commuter : RegisterRequest
commuter = record { phone = bytes "082"; email = []; password = bytes "pw"; role = role_commuter }

login-register_example :
    (register setup 100 (some commuter) start ≡ (
      reply 201 (record { token = 7 ∷ 100 ∷ 86500 ∷ []; user_id = []; role = role_commuter }),
      registered setup (λ n. refl) commuter (bytes "pw") start,
    ))
    × ((login setup 200
          (some (record { phone = bytes "082"; password = bytes "pw" }))
          (registered setup (λ n. refl) commuter (bytes "pw") start)).0
        ≡ reply 200 (record { token = 7 ∷ 200 ∷ 86600 ∷ []; user_id = []; role = role_commuter }))
    × ((at : ℕ)
        → at < 200 + token_ttl
        → parse open_jwt setup.show_uuid setup.secret at (7 ∷ 200 ∷ 86600 ∷ [])
          ≡ some (claims_for open_jwt setup.show_uuid setup.secret 200 7 role_commuter))
unfolding text_eq issue hash_password role_valid
login-register_example =
    login-register setup (λ n. refl) open_jwt-IsJwt plain_bcrypt-IsBcrypt (λ n. tt) 100 200 commuter
      (bytes "pw") (7 ∷ 100 ∷ 86500 ∷ []) (7 ∷ 200 ∷ 86600 ∷ []) start refl refl refl refl refl

abbrev attempt_of : LoginRequest
attempt_of = record { phone = bytes "082"; password = bytes "pw" }

login-Tried_example :
    ((u : User) × (t : Text) × Tried setup 200 attempt_of start u true
      × (token_of setup 200 attempt_of start u ≡ some t)
      × (logged_in setup 200 attempt_of start ≡ (
        reply 200 (record { token = t; user_id = setup.show_uuid u.id; role = u.role }),
        tick start,
      )))
    ⊎ ((u : User) × Tried setup 200 attempt_of start u true
        × (token_of setup 200 attempt_of start u ≡ none)
        × (logged_in setup 200 attempt_of start ≡ (refuse 500 "failed to issue token", tick start)))
    ⊎ ((u : User) × Tried setup 200 attempt_of start u false
        × (logged_in setup 200 attempt_of start
            ≡ (refuse 401 "invalid phone or password", tick start)))
    ⊎ (((user_found setup 200 attempt_of start ≡ none) ⊎ (healthy.fails 7 ≡ true))
        × (logged_in setup 200 attempt_of start
            ≡ (refuse 401 "invalid phone or password", tick start)))
login-Tried_example = login-Tried setup 200 attempt_of start

abbrev header : Text
header = bytes "bEarer t"

require_auth-require_role_example :
    ((c : Claims) × Authorized open_jwt setup.show_uuid [] 5 header
        (role_owner ∷ [])
        (me setup)
        start
        c
      × (guarded open_jwt setup.show_uuid [] 5 header (role_owner ∷ []) (me setup) start
          ≡ me setup (some c) start))
    ⊎ ((c : Claims) × (token : Text) × (bearer header ≡ some token)
        × (parse open_jwt setup.show_uuid [] 5 token ≡ some c)
        × (¬ IsAllowed (role_owner ∷ []) c.role)
        × (guarded open_jwt setup.show_uuid [] 5 header (role_owner ∷ []) (me setup) start
            ≡ (refuse 403 "insufficient role", start)))
    ⊎ ((token : Text) × (bearer header ≡ some token)
        × (parse open_jwt setup.show_uuid [] 5 token ≡ none)
        × (guarded open_jwt setup.show_uuid [] 5 header (role_owner ∷ []) (me setup) start
            ≡ (refuse 401 "invalid or expired token", start)))
    ⊎ ((bearer header ≡ none)
        × (guarded open_jwt setup.show_uuid [] 5 header (role_owner ∷ []) (me setup) start
            ≡ (refuse 401 "missing or malformed Authorization header", start)))
require_auth-require_role_example =
    require_auth-require_role open_jwt setup.show_uuid [] 5 header (role_owner ∷ []) (me setup)
      start

-- The scheme is read in any case.
bearer_folds : bearer header ≡ some (bytes "t")
unfolding bearer split_space is_bearer text_eq
bearer_folds = refl
