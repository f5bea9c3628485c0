-- ===== src/Boarding/Tests.antt =====
-- Runs of codes, the limiter and tokens (backend/internal/boarding), with a codec that adds 47 to
-- each byte.
use sesfikile.Base.{
  ℕ, zero, suc, ◌+◌, ◌-◌, ◌≤◌, false, ◌≡◌, refl, ap, none, some, Option, List, [], ◌∷◌, ◌++◌, map,
  length, filter, any, ◌==◌, arith,
}
use sesfikile.Base.Int.{ℤ, pos, negsuc}
use sesfikile.Base.Text.{Text, bytes, is_empty}
use sesfikile.Boarding.Models.{PassPayload}
use sesfikile.Boarding.Code.{
  generate_code, normalize_code, letter, code_length, IsTyped, finished, separated, typed_as,
  generate_code-normalize_code,
}
use sesfikile.Boarding.Limiter.{Limit, is_recent}
use sesfikile.Boarding.Limiter.Window.{Calls, let_through, last_time, allow-window}
use sesfikile.Boarding.Token.{
  Codec, IsCodec, sign_bytes, sign, verify, valid, verify-sign, verify-authentic,
}

abbrev draw : List ℕ
draw = 20 ∷ 7 ∷ 49 ∷ 2 ∷ 9 ∷ 30 ∷ 26 ∷ 255 ∷ []

-- "M7H2-9YTZ " with capitals that stay.
abbrev spaced : Text
spaced = bytes "M7H2" ++ 45 ∷ bytes "9YTZ" ++ 32 ∷ []

spaced-IsTyped : IsTyped (λ c. c) spaced (map letter draw)
spaced-IsTyped = typed_as _ _ refl refl (
    typed_as _ _ refl refl (
      typed_as _ _ refl refl (
        typed_as _ _ refl refl (
          separated 45 refl (
            typed_as _ _ refl refl (
              typed_as _ _ refl refl
                (typed_as _ _ refl refl (typed_as _ _ refl refl (separated 32 refl finished)))))))))

generate_code-normalize_code_example :
    (length (map letter draw) ≡ code_length)
    × (normalize_code (λ c. c) (map letter draw) ≡ map letter draw)
    × (normalize_code (λ c. c) spaced ≡ map letter draw)
unfolding generate_code
generate_code-normalize_code_example =
    generate_code-normalize_code (λ c. c) draw spaced (map letter draw) (λ b. refl) refl refl
      spaced-IsTyped

abbrev three_a_minute : Limit
three_a_minute = record { window = 60; max = 3 }

abbrev guesses : Calls
guesses = (1, 100) ∷ (1, 110) ∷ (2, 115) ∷ (1, 120) ∷ (1, 130) ∷ []

allow-window_example :
    length (
      filter
        (is_recent three_a_minute (last_time 0 guesses))
        (let_through three_a_minute 1 guesses [] []))
    ≤ 3
allow-window_example =
    allow-window three_a_minute 1 0 guesses
      (omega arith, (omega arith, (omega arith, (omega arith, (omega arith, tt)))))

abbrev sign_of : ℤ → ℕ
sign_of (pos n) = 0
sign_of (negsuc n) = 1

abbrev size_of : ℤ → ℕ
size_of (pos n) = n
size_of (negsuc n) = n

abbrev int_of : ℕ → ℕ → ℤ
int_of zero n = pos n
int_of (suc k) n = negsuc n

int_back : (z : ℤ) → int_of (sign_of z) (size_of z) ≡ z
int_back (pos n) = refl
int_back (negsuc n) = refl

abbrev plain_text : PassPayload → Text
plain_text p =
    p.commuter_id
    ∷ p.route_id
    ∷ p.from_stop_id
    ∷ p.to_stop_id
    ∷ p.issued_at
    ∷ p.expires_at
    ∷ sign_of p.fare_cents
    ∷ size_of p.fare_cents
    ∷ p.nonce

abbrev plain : PassPayload → Option Text
plain p = some (plain_text p)

abbrev read_plain : Text → Option PassPayload
read_plain (a ∷ b ∷ c ∷ d ∷ e ∷ f ∷ g ∷ h ∷ n) = some (record {
  commuter_id = a;
  route_id = b;
  from_stop_id = c;
  to_stop_id = d;
  fare_cents = int_of g h;
  issued_at = e;
  expires_at = f;
  nonce = n;
})
read_plain s = none

abbrev shifted : Codec
shifted = record {
  hmac = λ k s. 7 ∷ s;
  encode = λ s. map (λ (c : ℕ). c + 47) s;
  decode = λ s. some (map (λ (c : ℕ). c - 47) s);
  marshal = plain;
  unmarshal = read_plain;
}

shifted-no_dot : (s : Text) → any (λ (c : ℕ). c == 46) (map (λ (c : ℕ). c + 47) s) ≡ false
shifted-no_dot [] = refl
shifted-no_dot (x ∷ s) = ground (arith, shifted-no_dot s)

shifted-back : (s : Text) → map (λ (c : ℕ). c - 47) (map (λ (c : ℕ). c + 47) s) ≡ s
shifted-back [] = refl
shifted-back (x ∷ s) = let here : x + 47 - 47 ≡ x = omega arith in rw (here, shifted-back s) refl

shifted-nonempty : (s : Text) → is_empty s ≡ false → is_empty (map (λ (c : ℕ). c + 47) s) ≡ false
shifted-nonempty [] h = h
shifted-nonempty (x ∷ s) h = refl

plain-back : (p : PassPayload) (s : Text) → plain p ≡ some s → read_plain s ≡ some p
plain-back p s e =
    rw (← ap text_of e) (ap (λ (z : ℤ). some (record p { fare_cents = z })) (int_back p.fare_cents))
  where
    text_of : Option Text → Text
    text_of none = []
    text_of (some t) = t

plain-nonempty : (p : PassPayload) (s : Text) → plain p ≡ some s → is_empty s ≡ false
plain-nonempty p [] e = cc
plain-nonempty p (x ∷ s) e = refl

shifted-IsCodec : IsCodec shifted
shifted-IsCodec = record {
  no_dot = shifted-no_dot;
  decode_encode = λ s. ap some (shifted-back s);
  encode_nonempty = shifted-nonempty;
  hmac_nonempty = λ k s. refl;
  marshal_nonempty = plain-nonempty;
  unmarshal_marshal = λ p s a. plain-back p s;
}

abbrev pass : PassPayload
pass = record {
  commuter_id = 7;
  route_id = 4;
  from_stop_id = 1;
  to_stop_id = 3;
  fare_cents = pos 1250;
  issued_at = 100;
  expires_at = 280;
  nonce = bytes "n1";
}

abbrev signed_pass : Text
signed_pass =
    54 ∷ 51 ∷ 48 ∷ 50 ∷ 147 ∷ 327 ∷ 47 ∷ 1297 ∷ 157 ∷ 96 ∷ 46 ∷ 54 ∷ 101 ∷ 98 ∷ 95 ∷ 97 ∷ 194 ∷ 374
    ∷ 94 ∷ 1344 ∷ 204 ∷ 143 ∷ []

verify-sign_example : verify shifted [] signed_pass ≡ valid pass
unfolding sign sign_bytes
verify-sign_example =
    verify-sign shifted [] pass signed_pass shifted-IsCodec (omega arith, (omega arith, tt)) refl

verify-authentic_example :
    (segment : Text) × (signature : Text) × (json : Text) × (signed_pass
      ≡ segment ++ 46 ∷ signature)
    × (shifted.decode signature ≡ some (shifted.hmac [] segment))
    × (shifted.decode segment ≡ some json)
    × (shifted.unmarshal json ≡ some pass)
verify-authentic_example = verify-authentic shifted [] signed_pass pass verify-sign_example
