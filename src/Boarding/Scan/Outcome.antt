-- ===== src/Boarding/Scan/Outcome.antt =====
-- ScanPass of backend/internal/boarding/handlers.go, from its request to its answer.
use sesfikile.Base.{ℕ, Bool, true, false, ◌≡◌, refl, ap, Option, none, some, inl, inr, Bool-cases}
use sesfikile.Base.Text.{Text, is_empty}
use sesfikile.Identity.Models.{Driver, VehicleAssignment}
use sesfikile.Identity.Repo.{get_driver_by_user_id, get_active_vehicle_assignment_by_driver_id}
use sesfikile.Boarding.Models.{is_expired, IssuedPass}
use sesfikile.Boarding.Limiter.{Attempts, allow}
use sesfikile.Boarding.Token.{Verified, valid, invalid, verify}
use sesfikile.Boarding.PassStore.{lookup_code}
use sesfikile.Boarding.Scan.Reads.{
  LedgerKept, LedgerKept-refl, LedgerKept-trans, driver-LedgerKept, assignment-LedgerKept,
  code-LedgerKept,
}
use sesfikile.Boarding.Scan.{
  Server, Setup, Times, ScanPassRequest, code_limit, rides_route, charge_at, on_route,
  with_assignment, with_driver, with_payload, with_code, with_attempt, with_request, scan_pass,
}
use sesfikile.Telemetry.Store.{VehicleState, get}
use sesfikile.Database.Session.{Env, Session, Result, ok, err}
use sesfikile.Boarding.Scan.Promise.{
  Presented, Checked, Driving, Riding, charge_of, Unread, Unassigned, Refused, Ended, ScanOutcome,
}
use sesfikile.Boarding.Scan.Settling.{after, settle-Ended}

module _ ⦃env : Env⦄ (setup : Setup) (times : Times) (user : ℕ) (req : ScanPassRequest)
    (st : Server) where
  unassigned :
      (c : Checked setup times user req st) (a : Attempts) (s : Session) (status : ℕ)
      → LedgerKept st.session s
      → Unassigned setup times user req st c status
      → Refused setup times user req st status (after setup times user req st a s)
  unassigned c a s status k u = (refl, refl, inl (k, inr (inr (c, u))))

  on_route-Ended :
      (c : Checked setup times user req st) (d : Driving setup times user req st c)
      (found : Option VehicleState) (a : Attempts)
      → LedgerKept st.session d.before
      → get d.assignment.vehicle_id st.telemetry ≡ found
      → Ended setup times user req st (
          on_route setup times c.payload d.assignment.vehicle_id found
            (after setup times user req st a d.before))
  unfolding charge_at
  on_route-Ended c d none a k g = unassigned c a d.before 409 k (inr (inr (d, inl g, refl)))
  on_route-Ended c d (some state) a k g = elim (Bool-cases (rides_route c.payload state)) [
    | inl on ↦
        let r : Riding setup times user req st c = record {
          driving = d;
          state = state;
          tracked = g;
          riding = on;
        } in
        rw (rides_route, on)
          (settle-Ended setup times user req st c r a (charge_of setup times user req st c r)
            d.before refl)
    | inr off ↦
        rw (rides_route, off)
          (unassigned c a d.before 409 k (inr (inr (d, inr (state, g, off), refl))))
  ]

  with_assignment-Ended :
      (c : Checked setup times user req st) (driver : Driver) (s start : Session)
      (found : Result VehicleAssignment × Session) (a : Attempts)
      → get_driver_by_user_id user c.read.session ≡ (ok driver, s)
      → get_active_vehicle_assignment_by_driver_id driver.id s ≡ found
      → LedgerKept st.session found.1
      → Ended setup times user req st
          (with_assignment setup times c.payload found (after setup times user req st a start))
  with_assignment-Ended c driver s start (err e, s') a f g k =
      unassigned c a s' 409 k (inr (inl (driver, s, f, (e, ap (λ x. x.0) g), refl)))
  with_assignment-Ended c driver s start (ok va, s') a f g k =
      let d : Driving setup times user req st c = record {
        driver = driver;
        found_at = s;
        found = f;
        assignment = va;
        before = s';
        assigned = g;
      } in
      on_route-Ended c d (get va.vehicle_id st.telemetry) a k refl

  with_driver-Ended :
      (c : Checked setup times user req st) (found : Result Driver × Session) (a : Attempts)
      (s : Session)
      → get_driver_by_user_id user c.read.session ≡ found
      → LedgerKept st.session found.1
      → Ended setup times user req st
          (with_driver setup times c.payload found (after setup times user req st a s))
  with_driver-Ended c (err e, s') a s f k = unassigned c a s' 403 k (inl (e, ap (λ x. x.0) f, refl))
  with_driver-Ended c (ok driver, s') a s f k =
      with_assignment-Ended c driver s' s (get_active_vehicle_assignment_by_driver_id driver.id s')
        a f refl (LedgerKept-trans st.session s' _ k (assignment-LedgerKept driver.id s'))

  with_payload-Ended :
      (token : Text) (verified : Verified) (a : Attempts) (s : Session)
      → Presented setup times user req st token (after setup times user req st a s)
      → verify setup.codec setup.secret token ≡ verified
      → LedgerKept st.session s
      → Ended setup times user req st
          (with_payload setup times user verified (after setup times user req st a s))
  with_payload-Ended token (invalid x) a s p v k = (
    refl,
    refl,
    inl (k, inr (inl (token, after setup times user req st a s, p, inl (x, v, refl)))),
  )
  with_payload-Ended token (valid payload) a s p v k =
      elim (Bool-cases (is_expired payload times.check_at)) [
        | inl late ↦ rw late (
          refl,
          refl,
          inl (
            k,
            inr (inl (token, after setup times user req st a s, p, inr (payload, v, late, refl))),
          ),
        )
        | inr fresh ↦
            let c : Checked setup times user req st = record {
              token = token;
              read = after setup times user req st a s;
              presented = p;
              payload = payload;
              authentic = v;
              in_time = fresh;
            } in
            rw fresh (
              with_driver-Ended c (get_driver_by_user_id user s) a s refl
                (LedgerKept-trans st.session s _ k (driver-LedgerKept user s)))
      ]

  unread :
      (a : Attempts) (s : Session) (status : ℕ)
      → LedgerKept st.session s
      → Unread setup times user req st status
      → Refused setup times user req st status (after setup times user req st a s)
  unread a s status k u = (refl, refl, inl (k, inl u))

  module _ (no_token : is_empty req.pass_token ≡ true)
      (coded : is_empty req.short_code ≡ false) where
    with_code-Ended :
        (a : Attempts) (found : Result IssuedPass × Session)
        → allow code_limit user times.attempt_at st.attempts ≡ (a, true)
        → lookup_code setup.to_upper times.sweep_at req.short_code st.session ≡ found
        → LedgerKept st.session found.1
        → Ended setup times user req st
            (with_code setup times user found (after setup times user req st a st.session))
    with_code-Ended a (err e, s) l f k =
        unread a s 401 k (inr (inr (no_token, (e, ap (λ x. x.0) f), refl)))
    with_code-Ended a (ok issued, s) l f k =
        with_payload-Ended issued.pass_token (verify setup.codec setup.secret issued.pass_token) a s
          (inr (no_token, coded, (a, issued, s, l, f, refl, refl))) refl k

    with_attempt-Ended :
        (attempt : Attempts × Bool)
        → allow code_limit user times.attempt_at st.attempts ≡ attempt
        → Ended setup times user req st (with_attempt setup times user req.short_code attempt st)
    with_attempt-Ended (a, false) l =
        unread a st.session 429 (LedgerKept-refl st.session) (inr (inl (no_token, (a, l), refl)))
    with_attempt-Ended (a, true) l =
        with_code-Ended a (lookup_code setup.to_upper times.sweep_at req.short_code st.session) l
          refl (code-LedgerKept setup.to_upper times.sweep_at req.short_code st.session)

  with_request-Ended : Ended setup times user req st (with_request setup times user req st)
  with_request-Ended = elim (Bool-cases (is_empty req.pass_token)) [
    | inl no_token ↦ elim (Bool-cases (is_empty req.short_code)) [
      | inl no_code ↦
          rw (no_token, no_code)
            (unread st.attempts st.session 400 (LedgerKept-refl st.session)
              (inl (no_token, no_code, refl)))
      | inr coded ↦
          rw (no_token, coded)
            (with_attempt-Ended no_token coded (allow code_limit user times.attempt_at st.attempts)
              refl)
    ]
    | inr token ↦ rw token (
        with_payload-Ended req.pass_token (verify setup.codec setup.secret req.pass_token)
          st.attempts st.session (inl (token, refl, refl)) refl (LedgerKept-refl st.session))
  ]

module _ ⦃env : Env⦄ where
  -- Without claims a scan is answered by 401, and without a body by 400, and changes nothing. An
  -- answer to a scan was given for the request's token, or the one that the pass store holds
  -- under its code for a user within the limit of attempts: it is signed under the secret and has
  -- not expired; the vehicle is that of the active assignment of the user's driver profile, and
  -- is online on the pass's route; the pass's fare was charged once, to the pass's commuter under
  -- the pass's nonce, on the tables that these reads left, and the tables are as the charge left
  -- them; and the answer reports that charge. A fresh charge, 201, takes a seat of the vehicle,
  -- kept within its bounds, and tells the vehicle's route; a replay, 200, does neither. A refusal
  -- changes no vehicle and no mailbox, and has its reason: 400 neither token nor code, 429 over
  -- the limit, 401 a code whose lookup failed or a token that does not verify, 410 an expired
  -- pass, 403 a driver profile whose lookup failed, 409 an active assignment whose lookup failed
  -- or a vehicle that is not online on the route, each with the ledger as it was; or the charge's
  -- error, 402 for the funds, 422 for no active driver, else 500.
  pub scan_pass-Outcome :
      (setup : Setup) (times : Times) (user : Option ℕ) (body : Option ScanPassRequest)
      (st : Server)
      → ScanOutcome setup times user body st (scan_pass setup times user body st)
  unfolding scan_pass
  scan_pass-Outcome setup times none body st = refl
  scan_pass-Outcome setup times (some user) none st = refl
  scan_pass-Outcome setup times (some user) (some req) st =
      with_request-Ended setup times user req st
