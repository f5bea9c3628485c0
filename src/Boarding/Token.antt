-- ===== src/Boarding/Token.antt =====
-- `Signer` of backend/internal/boarding/token.go. HMAC-SHA256, base64url and JSON are the
-- libraries', so they are operations that the definitions take, with laws that they obey.
use sesfikile.Base.{
  ℕ, false, ◌≡◌, refl, ap, ◌∙◌, Option, none, some, [], ◌∷◌, ◌++◌, any, ◌==◌, ==_iff, ◌||◌,
  if◌then◌else◌, inl, inr, Bool-cases, arith,
}
use sesfikile.Base.Text.{Text, IsAscii, is_empty, text_eq, text_eq_refl, eq_of_text_eq}
use sesfikile.Boarding.Models.{PassPayload}

-- `hmac` is the sum of a message under a secret; a failing `Decode` or `Unmarshal` is `none`.
pub record Codec : Type 0 where
  pub hmac : Text → Text → Text
  pub encode : Text → Text
  pub decode : Text → Option Text
  pub marshal : PassPayload → Option Text
  pub unmarshal : Text → Option PassPayload

pub data TokenError : Type 0 where
  malformed_token invalid_signature marshal_failed : TokenError

pub data Verified : Type 0 where
  valid : PassPayload → Verified
  invalid : TokenError → Verified

-- `strings.SplitN(token, ".", 2)`, when it has two parts.
unfoldable pub split_dot : Text → Option (Text × Text)
split_dot [] = none
split_dot (c ∷ s) =
    if c == 46
    then some ([], s)
    else elim (split_dot s) [ none ↦ none | some p ↦ some (c ∷ p.0, p.1) ]

module _ (codec : Codec) (secret : Text) where
  unfoldable pub sign_bytes : Text → Text
  sign_bytes payload_segment = codec.hmac secret payload_segment

  unfoldable pub sign : PassPayload → Option Text
  sign payload = elim (codec.marshal payload) [
    | none ↦ none
    | some payload_json ↦
        let payload_segment = codec.encode payload_json in
        some (payload_segment ++ 46 ∷ codec.encode (sign_bytes payload_segment))
  ]

  abbrev pub parse_payload : Option Text → Verified
  parse_payload none = invalid malformed_token
  parse_payload (some payload_json) = elim (codec.unmarshal payload_json) [
    | none ↦ invalid malformed_token
    | some payload ↦ valid payload
  ]

  -- `!hmac.Equal(givenMAC, expectedMAC)`, behind the decoding of the given one.
  abbrev pub check_mac : Text → Option Text → Verified
  check_mac payload_segment none = invalid malformed_token
  check_mac payload_segment (some given_mac) =
      if text_eq given_mac (sign_bytes payload_segment)
      then parse_payload (codec.decode payload_segment)
      else invalid invalid_signature

  abbrev pub check_parts : Option (Text × Text) → Verified
  check_parts none = invalid malformed_token
  check_parts (some (payload_segment, sig_segment)) =
      if is_empty payload_segment || is_empty sig_segment
      then invalid malformed_token
      else check_mac payload_segment (codec.decode sig_segment)

  unfoldable pub verify : Text → Verified
  verify token = check_parts (split_dot token)

-- What the libraries document: base64url texts have no ".", are empty for the empty text alone,
-- and decode to what was encoded; a sum of HMAC-SHA256 and a JSON object have some bytes; and a
-- payload that was marshalled is read back, if its nonce is ASCII: encoding/json replaces bytes
-- that are not UTF-8. A payload with an id or a time that Go cannot hold is not marshalled.
pub record IsCodec (codec : Codec) : Type 0 where
  pub no_dot : (s : Text) → any (λ c. c == 46) (codec.encode s) ≡ false
  pub decode_encode : (s : Text) → codec.decode (codec.encode s) ≡ some s
  pub encode_nonempty : (s : Text) → is_empty s ≡ false → is_empty (codec.encode s) ≡ false
  pub hmac_nonempty : (k s : Text) → is_empty (codec.hmac k s) ≡ false
  pub marshal_nonempty :
      (p : PassPayload) (s : Text) → codec.marshal p ≡ some s → is_empty s ≡ false
  pub unmarshal_marshal :
      (p : PassPayload) (s : Text)
      → IsAscii p.nonce
      → codec.marshal p ≡ some s
      → codec.unmarshal s ≡ some p

split_dot-join : (s t : Text) → any (λ c. c == 46) s ≡ false → split_dot (s ++ 46 ∷ t) ≡ some (s, t)
unfolding split_dot
split_dot-join [] t h = refl
split_dot-join (c ∷ s) t h = ground (arith, split_dot-join s t)

split_dot-parts : (token s t : Text) → split_dot token ≡ some (s, t) → token ≡ s ++ 46 ∷ t
unfolding split_dot
split_dot-parts [] s t h = cc
split_dot-parts (c ∷ token) s t h = elim (Bool-cases (c == 46)) [
  | inl dot ↦
      ap (λ (x : ℕ). x ∷ token) ((==_iff c 46).0 dot)
      ∙ ap (λ (x : Text × Text). x.0 ++ 46 ∷ x.1) (ap (parts_or (s, t)) (rw dot at h))
  | inr other ↦ later (split_dot token) (split_dot-parts token) (rw other at h)
]
  where
    parts_or : Text × Text → Option (Text × Text) → Text × Text
    parts_or x none = x
    parts_or x (some y) = y

    later :
        (o : Option (Text × Text))
        → ((u v : Text) → o ≡ some (u, v) → token ≡ u ++ 46 ∷ v)
        → (let both : Option (Text × Text) = elim o [
          | none ↦ none
          | some p ↦ some (c ∷ p.0, p.1)
        ] in
            both ≡ some (s, t))
        → c ∷ token ≡ s ++ 46 ∷ t
    later none a k = cc
    later (some (u, v)) a k =
        let same = ap (parts_or (s, t)) k in
        ap (λ (x : Text). c ∷ x) (a u v refl) ∙ ap (λ (x : Text × Text). x.0 ++ 46 ∷ x.1) same

module _ (codec : Codec) (secret : Text) where
  -- With a codec that obeys the laws of its libraries, a token that was signed under a secret, for a
  -- payload whose nonce is ASCII, is verified under it, and gives back its payload.
  pub verify-sign :
      (payload : PassPayload) (token : Text)
      → IsCodec codec
      → IsAscii payload.nonce
      → sign codec secret payload ≡ some token
      → verify codec secret token ≡ valid payload
  unfolding sign verify sign_bytes
  verify-sign payload token laws plain e = go (codec.marshal payload) refl e
    where
      text_or : Text → Option Text → Text
      text_or x none = x
      text_or x (some y) = y

      go :
          (m : Option Text)
          → codec.marshal payload ≡ m
          → elim m [
            | none ↦ none
            | some json ↦
                some
                  (codec.encode json ++ 46 ∷ codec.encode (codec.hmac secret (codec.encode json)))
          ]
            ≡ some token
          → check_parts codec secret (split_dot token) ≡ valid payload
      go none a h = cc
      go (some json) a h = rw (← ap (text_or token) h) (
          rw
            (split_dot-join (codec.encode json)
              (codec.encode (codec.hmac secret (codec.encode json))) (laws.no_dot json))
            (rw
              (
                laws.encode_nonempty json (laws.marshal_nonempty payload json a),
                laws.encode_nonempty (codec.hmac secret (codec.encode json))
                    (laws.hmac_nonempty secret (codec.encode json)),
                laws.decode_encode (codec.hmac secret (codec.encode json)),
                text_eq_refl,
                laws.decode_encode json,
              )
              (rw (parse_payload, laws.unmarshal_marshal payload json plain a) refl)))

  -- A token that is verified carries a signature of its payload segment under the secret, and its
  -- payload is what that segment encodes.
  pub verify-authentic :
      (token : Text) (payload : PassPayload)
      → verify codec secret token ≡ valid payload
      → (segment : Text) × (signature : Text) × (json : Text) × (token ≡ segment ++ 46 ∷ signature)
        × (codec.decode signature ≡ some (codec.hmac secret segment))
        × (codec.decode segment ≡ some json)
        × (codec.unmarshal json ≡ some payload)
  unfolding verify sign_bytes
  verify-authentic token payload e = parts (split_dot token) refl e
    where
      payload_of : Verified → PassPayload
      payload_of (valid p) = p
      payload_of (invalid x) = payload

      Authentic : Text → Text → Type 0
      Authentic segment signature =
          (json : Text) × (codec.decode signature ≡ some (codec.hmac secret segment))
          × (codec.decode segment ≡ some json)
          × (codec.unmarshal json ≡ some payload)

      read :
          (segment signature json : Text) (u : Option PassPayload)
          → codec.unmarshal json ≡ u
          → codec.decode signature ≡ some (codec.hmac secret segment)
          → codec.decode segment ≡ some json
          → elim u [ none ↦ invalid malformed_token | some p ↦ valid p ] ≡ valid payload
          → Authentic segment signature
      read segment signature json none a b c k = cc
      read segment signature json (some p) a b c k = (json, b, c, a ∙ ap some (ap payload_of k))

      decoded :
          (segment signature : Text) (j : Option Text)
          → codec.decode segment ≡ j
          → codec.decode signature ≡ some (codec.hmac secret segment)
          → parse_payload codec secret j ≡ valid payload
          → Authentic segment signature
      decoded segment signature none a b k = cc
      decoded segment signature (some json) a b k =
          read segment signature json (codec.unmarshal json) refl b a k

      signed :
          (segment signature : Text) (m : Option Text)
          → codec.decode signature ≡ m
          → check_mac codec secret segment m ≡ valid payload
          → Authentic segment signature
      signed segment signature none a k = cc
      signed segment signature (some mac) a k =
          elim (Bool-cases (text_eq mac (codec.hmac secret segment))) [
            | inl same ↦
                decoded segment signature (codec.decode segment) refl
                  (a ∙ ap some (eq_of_text_eq mac (codec.hmac secret segment) same))
                  (rw (check_mac, same) at k)
            | inr other ↦ cc (rw (check_mac, other) at k)
          ]

      parts :
          (o : Option (Text × Text))
          → split_dot token ≡ o
          → check_parts codec secret o ≡ valid payload
          → (segment : Text) × (signature : Text) × (json : Text) × (token
              ≡ segment ++ 46 ∷ signature)
            × (codec.decode signature ≡ some (codec.hmac secret segment))
            × (codec.decode segment ≡ some json)
            × (codec.unmarshal json ≡ some payload)
      parts none a k = cc
      parts (some (segment, signature)) a k =
          elim (Bool-cases (is_empty segment || is_empty signature)) [
            | inl bad ↦ cc (rw (check_parts, bad) at k)
            | inr fine ↦
                let (json, b, c, d) =
                  signed segment signature (codec.decode signature) refl
                    (rw (check_parts, fine) at k) in
                (segment, signature, json, split_dot-parts token segment signature a, b, c, d)
          ]
