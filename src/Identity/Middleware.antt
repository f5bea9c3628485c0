-- ===== src/Identity/Middleware.antt =====
-- backend/internal/identity/middleware.go: who may call a handler.
pub mod Guard
use sesfikile.Base.{
  ℕ, ◌+◌, Bool, true, false, not, Option, none, some, List, [], ◌∷◌, any, ltb, leb, ◌==◌, ◌&&◌,
  if◌then◌else◌, map,
}
use sesfikile.Base.Text.{Text, bytes, text_eq}
use sesfikile.Identity.Models.{Role}
use sesfikile.Identity.Tokens.{Claims, Jwt, parse}
use sesfikile.Http.{Reply, refuse, Handler, answer, parsed}

-- `strings.SplitN(header, " ", 2)`: the texts before and behind the first space, if there is one.
unfoldable pub split_space : Text → Option (Text × Text)
split_space [] = none
split_space (c ∷ t) =
    let rest = split_space t in
    if c == 32 then some ([], t) else elim rest [ none ↦ none | some (a, b) ↦ some (c ∷ a, b) ]

abbrev pub lower : ℕ → ℕ
lower c = if leb 65 c && leb c 90 then c + 32 else c

-- `strings.EqualFold(s, "Bearer")`; no other character folds to a letter of that word.
unfoldable pub is_bearer : Text → Bool
is_bearer s = text_eq (map lower s) (bytes "bearer")

-- The token of an Authorization header.
unfoldable pub bearer : Text → Option Text
bearer header = elim (split_space header) [
  | none ↦ none
  | some (scheme, token) ↦ if is_bearer scheme then some token else none
]

unfoldable pub require_auth :
    {A : Type 0}
    → Jwt
    → (show_uuid : ℕ → Text) (secret : Text) (now : ℕ) → Text
    → (Option Claims → Handler A)
    → Handler A
require_auth jwt show_uuid secret now header next =
    parsed (bearer header) (refuse 401 "missing or malformed Authorization header") λ token.
      parsed (parse jwt show_uuid secret now token) (refuse 401 "invalid or expired token")
        λ claims. next (some claims)

-- `allowed[role]`
unfoldable pub allows : List Role → Role → Bool
allows roles role = any (λ r. text_eq r role) roles

unfoldable pub require_role :
    {A : Type 0} → List Role → (Option Claims → Handler A) → Option Claims → Handler A
require_role roles next none = answer (refuse 401 "unauthorized")
require_role roles next (some claims) =
    if not (allows roles claims.role)
    then answer (refuse 403 "insufficient role")
    else next (some claims)
