-- ===== src/Identity/Middleware/Guard.antt =====
-- What reaches a handler behind RequireAuth and RequireRole.
use sesfikile.Base.{
  ℕ, true, false, Option, none, some, List, ◌≡◌, ◌⊎◌, [], ◌∷◌, subst, inl, inr, refl, Bool-cases,
  Option-cases,
}
use sesfikile.Base.Text.{Text, text_eq, text_eq_refl, eq_of_text_eq}
use sesfikile.Routing.Best.{Any}
use sesfikile.Identity.Models.{Role}
use sesfikile.Identity.Tokens.{Claims, Jwt, parse}
use sesfikile.Identity.Middleware.{bearer, require_auth, allows, require_role}
use sesfikile.Database.Session.{Session}
use sesfikile.Http.{Reply, refuse, Handler, answer, parsed}

-- The role is on the list.
abbrev pub IsAllowed : List Role → Role → Type 0
IsAllowed roles role = Any (λ r. r ≡ role) roles

allows-IsAllowed :
    (roles : List Role) (role : Role) → allows roles role ≡ true → IsAllowed roles role
unfolding allows
allows-IsAllowed [] role h = cc h
allows-IsAllowed (r ∷ roles) role h = elim (Bool-cases (text_eq r role)) [
  | inl e ↦ inl (eq_of_text_eq r role e)
  | inr e ↦ inr (allows-IsAllowed roles role (rw e at h))
]

refused-IsAllowed :
    (roles : List Role) (role : Role) → allows roles role ≡ false → ¬ IsAllowed roles role
unfolding allows
refused-IsAllowed [] role h x = x
refused-IsAllowed (r ∷ roles) role h x = elim (Bool-cases (text_eq r role)) [
  | inl e ↦ cc (rw e at h)
  | inr e ↦ elim x [
    | inl same ↦ cc (e, subst (λ (t : Text). text_eq r t ≡ true) same (text_eq_refl r))
    | inr there ↦ refused-IsAllowed roles role (rw e at h) there
  ]
]

module _ {A : Type 0} (jwt : Jwt) (show_uuid : ℕ → Text) (secret : Text) (now : ℕ) (header : Text)
    (roles : List Role) (next : Option Claims → Handler A) (s : Session) where
  abbrev pub guarded : Reply A × Session
  guarded = require_auth jwt show_uuid secret now header (require_role roles next) s

  -- The header has a bearer token that is valid now, for one of the roles.
  abbrev pub Authorized : Claims → Type 0
  Authorized c =
      (token : Text) × (bearer header ≡ some token)
      × (parse jwt show_uuid secret now token ≡ some c)
      × IsAllowed roles c.role

  -- A handler behind both checks runs with the claims of a valid bearer token whose role is
  -- allowed, and its reply is the reply. In every other case it does not run: nothing changes, and
  -- the reply is 403 if the token is valid and its role is not allowed, and 401 if there is no
  -- valid token.
  pub require_auth-require_role :
      ((c : Claims) × Authorized c × (guarded ≡ next (some c) s))
      ⊎ ((c : Claims) × (token : Text) × (bearer header ≡ some token)
          × (parse jwt show_uuid secret now token ≡ some c)
          × (¬ IsAllowed roles c.role)
          × (guarded ≡ (refuse 403 "insufficient role", s)))
      ⊎ ((token : Text) × (bearer header ≡ some token)
          × (parse jwt show_uuid secret now token ≡ none)
          × (guarded ≡ (refuse 401 "invalid or expired token", s)))
      ⊎ ((bearer header ≡ none)
          × (guarded ≡ (refuse 401 "missing or malformed Authorization header", s)))
  unfolding require_auth require_role parsed answer
  require_auth-require_role = elim (Option-cases (bearer header)) [
    | inl bare ↦ inr (inr (inr (bare, rw (require_auth, bare) refl)))
    | inr (token, has) ↦ elim (Option-cases (parse jwt show_uuid secret now token)) [
      | inl bad ↦ inr (inr (inl (token, has, bad, rw (require_auth, has, bad) refl)))
      | inr (c, good) ↦ elim (Bool-cases (allows roles c.role)) [
        | inl allowed ↦ inl (
          c,
          (token, has, good, allows-IsAllowed roles c.role allowed),
          rw (require_auth, has, good, require_role, allowed) refl,
        )
        | inr other ↦ inr (
            inl (
              c,
              token,
              has,
              good,
              refused-IsAllowed roles c.role other,
              rw (require_auth, has, good, require_role, other) refl,
            ))
      ]
    ]
  ]
