-- ===== src/Fuel/Handlers/Replies.antt =====
-- What POST /fuel/viu/confirm answers, and what it has done.
use sesfikile.Base.Int.{ℤ, ◌+ℤ◌, ◌-ℤ◌}
use sesfikile.Base.{
  ℕ, Bool, true, false, map, List, ap, ◌∙◌, ◌==◌, if◌then◌else◌, some, none, ◌≡◌, ◌⊎◌, inl, inr,
  refl, find?,
}
use sesfikile.Base.Text.{Text}
use sesfikile.Fuel.Pump.{ConfirmResult, has_reference, set_confirmed, confirm_pump}
use sesfikile.Fuel.Models.{confirmed, reserved, VehicleQuota, Authorization}
use sesfikile.Fuel.Pump.Rows.{Breaks, updated_rows, refused_rows}
use sesfikile.Fuel.Pump.Sessions.{ConfirmFailure, Settled, Confirmed, confirm_pump-Ensures}
use sesfikile.Fuel.Handlers.{ConfirmResponse, confirm_response, serve_confirm_pump}
use sesfikile.Database.Schema.{Db}
use sesfikile.Database.Session.{
  Env, Session, Error, database, constraint, not_found, out_of_range, unbalanced, unique_violation,
  no_rows, insufficient_funds, no_active_driver, idempotency_required, invalid_amount,
  not_owners_vehicle, nothing_to_allocate, code_not_found, already_exists, foreign_key_violation,
  bad_json,
}
use sesfikile.Database.Ensures.{Aborts, Faulty}
use sesfikile.Http.{Reply, reply, refuse, answer, parsed, missing_or_failed, Uuid}
use sesfikile.Http.Outcome.{attempt-Ensures}

module _ ⦃env : Env⦄ (uuid : Uuid) (id : ℕ) (before : Db) where
  -- The row of a vehicle with an amount moved from reserved to used.
  abbrev pub moved : ℤ → ℕ → VehicleQuota → VehicleQuota
  moved amount now q = record {
    vehicle_id = q.vehicle_id;
    owner_user_id = q.owner_user_id;
    quota_cents = q.quota_cents;
    reserved_cents = q.reserved_cents -ℤ amount;
    used_cents = q.used_cents +ℤ amount;
    updated_at = now;
  }

  -- A session that is confirmed at a time.
  abbrev pub closed : ℕ → Authorization → Authorization
  closed at x = record {
    id = x.id;
    vehicle_id = x.vehicle_id;
    litres = x.litres;
    amount_cents = x.amount_cents;
    status = confirmed;
    created_at = x.created_at;
    confirmed_at = some at;
  }

  -- A session that was confirmed, when nothing changes, or is confirmed now, when the amount moves.
  abbrev pub Spent : Bool → Authorization → Db → Type 0
  Spent true a after = (a.status ≡ confirmed) × (after ≡ before)
  Spent false a after =
      (a.status ≡ reserved)
      × ((now : ℕ) × (at : ℕ) × (after ≡ record before {
        vehicle_fuel_quotas =
            map (λ q. if q.vehicle_id == a.vehicle_id then moved a.amount_cents now q else q)
              before.vehicle_fuel_quotas;
        fuel_authorizations =
            map (λ x. if x.id == a.id then closed at x else x) before.fuel_authorizations;
      }))

  abbrev pub IsSettled : Reply ConfirmResponse × Session → Type 0
  IsSettled r =
      (a : Authorization) × (already : Bool) × (find? (has_reference id) before.fuel_authorizations
        ≡ some a)
      × (r.0
          ≡ reply 200 (record {
            vehicle_id = uuid.show a.vehicle_id;
            amount_cents = a.amount_cents;
            already_confirmed = already;
          }))
      × Spent already a r.1.pool

  -- A refusal, with its reason; the tables are as they were.
  abbrev pub IsUnsettled : Reply ConfirmResponse × Session → Type 0
  IsUnsettled r =
      (r.1.pool ≡ before)
      × (((r.0 ≡ refuse 404 "unknown auth_reference")
            × (find? (has_reference id) before.fuel_authorizations ≡ none))
          ⊎ ((r.0 ≡ refuse 500 "failed to confirm pump session")
              × (Faulty env
                  ⊎ (a : Authorization) × (now : ℕ) × (find? (has_reference id)
                        before.fuel_authorizations
                      ≡ some a)
                    × (a.status ≡ reserved)
                    × Breaks a.vehicle_id (moved a.amount_cents now) before.vehicle_fuel_quotas)))

  Settled-Spent :
      (already : Bool) (a : Authorization) (after : Db)
      → Settled already a before after
      → Spent already a after
  Settled-Spent true a after h = h
  Settled-Spent false a after (unsettled, (rows, now, later, e, same)) = (
    unsettled,
    (
      now,
      later,
      same
          ∙ ap
              (λ (rows : List VehicleQuota). record before {
                vehicle_fuel_quotas = rows;
                fuel_authorizations = map (set_confirmed a.id later) before.fuel_authorizations;
              })
              (updated_rows a.vehicle_id (moved a.amount_cents now) before.vehicle_fuel_quotas rows
                e),
    ),
  )

  settled :
      (c : ConfirmResult) (s : Session)
      → Confirmed id before c s.pool
      → IsSettled (reply 200 (confirm_response uuid c), s)
  settled c s h = (
    h.authorization,
    c.already_confirmed,
    h.found,
    rw (h.vehicle, h.amount) refl,
    Settled-Spent c.already_confirmed h.authorization s.pool h.settled,
  )

  unsettled :
      (e : Error) (s : Session)
      → Aborts before (ConfirmFailure env id before) e s
      → IsUnsettled
          (missing_or_failed "unknown auth_reference" "failed to confirm pump session" e, s)
  unsettled not_found s h = (h.0, inl (refl, h.1))
  unsettled database s h = (h.0, inr (refl, inl h.1))
  unsettled constraint s (same, (a, now, found, held, e)) = (
    same,
    inr (
      refl,
      inr (
        a,
        now,
        found,
        held,
        refused_rows a.vehicle_id (moved a.amount_cents now) before.vehicle_fuel_quotas constraint
            e,
      ),
    ),
  )
  unsettled out_of_range s h = absurd h.1
  unsettled unbalanced s h = absurd h.1
  unsettled unique_violation s h = absurd h.1
  unsettled no_rows s h = absurd h.1
  unsettled insufficient_funds s h = absurd h.1
  unsettled no_active_driver s h = absurd h.1
  unsettled idempotency_required s h = absurd h.1
  unsettled invalid_amount s h = absurd h.1
  unsettled not_owners_vehicle s h = absurd h.1
  unsettled nothing_to_allocate s h = absurd h.1
  unsettled code_not_found s h = absurd h.1
  unsettled already_exists s h = absurd h.1
  unsettled foreign_key_violation s h = absurd h.1
  unsettled bad_json s h = absurd h.1

  abbrev Ends : Reply ConfirmResponse × Session → Type 0
  Ends r = IsSettled r ⊎ IsUnsettled r

module _ ⦃env : Env⦄ (uuid : Uuid) where
  -- A confirmation of a reference that is an id, whichever calls fail, is answered in one of these
  -- ways. By 200 with the session's vehicle and amount, and then either the session was confirmed
  -- and nothing has changed, or it was reserved, and on its vehicle's row the amount has moved from
  -- reserved to used and the session is confirmed, each with its time, and all else is as it was.
  -- By 404 if there is no such session, or by 500 if a call failed or a row that the amount is
  -- moved on would break the CHECKs of the quotas, and then nothing has changed.
  pub serve_confirm_pump-Outcome :
      (reference : Text) (id : ℕ) (s : Session)
      → uuid.parse reference ≡ some id
      → IsSettled uuid id s.pool (serve_confirm_pump uuid (some reference) s)
        ⊎ IsUnsettled uuid id s.pool (serve_confirm_pump uuid (some reference) s)
  unfolding serve_confirm_pump parsed answer
  serve_confirm_pump-Outcome reference id s known =
      rw (serve_confirm_pump, known)
        (attempt-Ensures (Ends uuid id s.pool) (confirm_pump id) _ _ s (confirm_pump-Ensures id s)
          (λ c s' h. inl (settled uuid id s.pool c s' h))
          (λ e s' h. inr (unsettled uuid id s.pool e s' h)))
