-- ===== src/Identity/Tokens.antt =====
-- backend/internal/identity/jwt.go and password.go. golang-jwt and bcrypt are arguments.
use sesfikile.Base.{ℕ, ◌+◌, ◌*◌, ◌<◌, Bool, true, not, Option, none, some, ◌≡◌, refl, if◌then◌else◌}
use sesfikile.Base.Text.{Text, IsAscii}
use sesfikile.Identity.Models.{Role}

-- Seconds, since a token's times are whole seconds.
abbrev pub token_ttl : ℕ
token_ttl = 24 * 3600

pub record Claims : Type 0 where
  pub user_id : ℕ
  pub role : Role
  pub issued_at : ℕ
  pub expires_at : ℕ
  pub subject : Text

-- The signing method of a token: `*jwt.SigningMethodHMAC`, or another.
pub data Method : Type 0 where
  hmac other : Method

-- `SignedString` with HS256 under a secret, and `ParseWithClaims` at a time, with a function that
-- gives the key for a method or fails: the claims and `token.Valid`, if there is no error.
pub record Jwt : Type 0 where
  pub signed : Text → Claims → Option Text
  pub parse_with_claims : (Method → Option Text) → ℕ → Text → Option (Claims × Bool)

-- A token that was signed under a secret, with texts that JSON keeps, is valid, with its claims,
-- until it expires, where the key for its method is that secret.
abbrev pub IsJwt : Jwt → Type 0
IsJwt jwt =
    (key : Method → Option Text) (secret : Text) (c : Claims) (t : Text) (now : ℕ)
    → IsAscii c.role
    → IsAscii c.subject
    → key hmac ≡ some secret
    → jwt.signed secret c ≡ some t
    → now < c.expires_at
    → jwt.parse_with_claims key now t ≡ some (c, true)

module _ (jwt : Jwt) (show_uuid : ℕ → Text) (secret : Text) where
  abbrev pub claims_for : ℕ → ℕ → Role → Claims
  claims_for now user_id role = record {
    user_id = user_id;
    role = role;
    issued_at = now;
    expires_at = now + token_ttl;
    subject = show_uuid user_id;
  }

  unfoldable pub issue : ℕ → ℕ → Role → Option Text
  issue now user_id role = jwt.signed secret (claims_for now user_id role)

  -- The key for a token's method: none for a method that is not HMAC.
  abbrev pub key_for : Method → Option Text
  key_for hmac = some secret
  key_for other = none

  unfoldable pub parse : ℕ → Text → Option Claims
  parse now token = elim (jwt.parse_with_claims key_for now token) [
    | none ↦ none
    | some (claims, is_valid) ↦ if not is_valid then none else some claims
  ]

  pub parse-issue :
      IsJwt jwt
      → (now later user_id : ℕ) (role : Role) (t : Text) → IsAscii role
      → IsAscii (show_uuid user_id)
      → issue now user_id role ≡ some t
      → later < now + token_ttl
      → parse later t ≡ some (claims_for now user_id role)
  unfolding issue parse
  parse-issue law now later user_id role t plain shown h fresh =
      rw (parse, law key_for secret (claims_for now user_id role) t later plain shown refl h fresh)
        refl

-- `GenerateFromPassword`, with the salt that it draws, and `CompareHashAndPassword`.
pub record Bcrypt : Type 0 where
  pub generate : Text → Option Text
  pub compare_hash : Text → Text → Bool

-- A hash matches the password that it was made from.
abbrev pub IsBcrypt : Bcrypt → Type 0
IsBcrypt bcrypt =
    (password hash : Text)
    → bcrypt.generate password ≡ some hash
    → bcrypt.compare_hash hash password ≡ true

module _ (bcrypt : Bcrypt) where
  unfoldable pub hash_password : Text → Option Text
  hash_password plaintext = bcrypt.generate plaintext

  unfoldable pub verify_password : Text → Text → Bool
  verify_password hash plaintext = bcrypt.compare_hash hash plaintext
