-- ===== src/Boarding/Issue.antt =====
-- `IssuePass` of backend/internal/boarding/handlers.go. A body is what encoding/json decodes, or
-- nothing; the claims are those that RequireAuth attached, if it did.
pub mod Outcome
pub mod Issued
pub mod Retries
mod Tests
use sesfikile.Base.{
  ℕ, zero, suc, ◌+◌, Bool, true, false, Option, none, some, List, [], if◌then◌else◌,
}
use sesfikile.Base.Int.{ℤ}
use sesfikile.Base.Text.{Text, is_empty, text_eq}
use sesfikile.Identity.Tokens.{Claims}
use sesfikile.Routing.Models.{Route, RouteLeg, source_catalogue}
use sesfikile.Routing.Graph.{fare_for_segment}
use sesfikile.Routing.Repo.{get_route_by_id, list_legs_for_route}
use sesfikile.Boarding.Models.{PassPayload, IssuedPass}
use sesfikile.Boarding.Code.{generate_code}
use sesfikile.Boarding.Token.{Codec, sign}
use sesfikile.Boarding.PassStore.{store_pass}
use sesfikile.Database.Session.{Env, Session, Error, unique_violation, Result, ok, err}
use sesfikile.Http.{Reply, reply, refuse, Handler, answer, attempt, parsed, failed, Uuid}

pub record IssuePassRequest : Type 0 where
  pub route_id : Text
  pub from_stop_id : Text
  pub to_stop_id : Text

pub record IssuePassResponse : Type 0 where
  pub pass_token : Text
  pub short_code : Text
  pub expires_at : Text
  pub fare_cents : ℤ

-- What the handler is built with and draws: the signer, how long a pass lives, the time, the
-- nonce, what `rand.Read` gives at each attempt, and the text of a time.
pub record Issuer : Type 0 where
  pub codec : Codec
  pub secret : Text
  pub uuid : Uuid
  pub ttl : ℕ
  pub now : ℕ
  pub nonce : Text
  pub random : ℕ → Option (List ℕ)
  pub rfc3339 : ℕ → Text

abbrev pub max_code_generation_attempts : ℕ
max_code_generation_attempts = 5

abbrev pub is_unique_violation : Error → Bool
is_unique_violation unique_violation = true
is_unique_violation e = false

module _ (h : Issuer) where
  abbrev pub payload_of : (commuter route from to : ℕ) → ℤ → PassPayload
  payload_of commuter route from to fare = record {
    commuter_id = commuter;
    route_id = route;
    from_stop_id = from;
    to_stop_id = to;
    fare_cents = fare;
    issued_at = h.now;
    expires_at = h.now + h.ttl;
    nonce = h.nonce;
  }

  -- The row for a code; the store writes `created_at`.
  abbrev pub pass_of : PassPayload → Text → Text → IssuedPass
  pass_of payload token candidate = record {
    code = candidate;
    pass_token = token;
    nonce = payload.nonce;
    commuter_id = payload.commuter_id;
    route_id = payload.route_id;
    expires_at = payload.expires_at;
    created_at = 0;
  }

  abbrev pub response_of : PassPayload → Text → Text → IssuePassResponse
  response_of payload token code = record {
    pass_token = token;
    short_code = code;
    expires_at = h.rfc3339 payload.expires_at;
    fare_cents = payload.fare_cents;
  }

  -- Behind the loop: `if shortCode == ""`.
  abbrev pub answer_code : PassPayload → Text → Text → Handler IssuePassResponse
  answer_code payload token code = answer (
      if is_empty code
      then refuse 500 "failed to issue boarding code"
      else reply 201 (response_of payload token code))

  module _ ⦃env : Env⦄ where
    -- The loop, with the attempts that are left and the number of the next one.
    unfoldable pub try_codes : ℕ → ℕ → PassPayload → Text → Handler IssuePassResponse
    try_codes zero i payload token s = answer_code payload token [] s
    try_codes (suc n) i payload token s = elim (generate_code (h.random i)) [
      | none ↦ (refuse 500 "failed to generate boarding code", s)
      | some candidate ↦
          let (r, s') = store_pass (pass_of payload token candidate) s in
          elim r [
            | ok done ↦ answer_code payload token candidate s'
            | err e ↦ elim (is_unique_violation e) [
              | true ↦ try_codes n (suc i) payload token s'
              | false ↦ (refuse 500 "failed to issue boarding code", s')
            ]
          ]
    ]

    unfoldable pub sign_and_store : PassPayload → Handler IssuePassResponse
    sign_and_store payload =
        parsed (sign h.codec h.secret payload) (refuse 500 "failed to sign pass")
          λ token. try_codes max_code_generation_attempts 0 payload token

    unfoldable pub issue_on : (commuter from to : ℕ) → ℕ → Route → Handler IssuePassResponse
    issue_on commuter from to route rt =
        if text_eq rt.source source_catalogue
        then answer (
            refuse 422
              "this is a catalogue-imported route with no live vehicles — boarding passes aren't available on it")
        else attempt (list_legs_for_route route) (failed "failed to load route legs") λ legs.
          parsed (fare_for_segment legs from to)
            (refuse 404 "no valid path from from_stop_id to to_stop_id on this route")
            λ fare. sign_and_store (payload_of commuter route from to fare)

    unfoldable pub issue_pass : Option Claims → Option IssuePassRequest → Handler IssuePassResponse
    issue_pass auth body = parsed auth (refuse 401 "unauthorized") λ claims.
        parsed body (refuse 400 "invalid request body") λ req.
          parsed (h.uuid.parse req.route_id) (refuse 400 "route_id must be a valid uuid") λ route.
            parsed (h.uuid.parse req.from_stop_id) (refuse 400 "from_stop_id must be a valid uuid")
              λ from.
                parsed (h.uuid.parse req.to_stop_id) (refuse 400 "to_stop_id must be a valid uuid")
                  λ to.
                    attempt (get_route_by_id route) (λ e. refuse 404 "route not found")
                      (issue_on claims.user_id from to route)
