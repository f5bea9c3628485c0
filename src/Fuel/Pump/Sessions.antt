-- ===== src/Fuel/Pump/Sessions.antt =====
-- What a pump confirmation does, by how it ends (backend/internal/fuel/viu_mock.go).
use sesfikile.Base.{
  ℕ, Bool, true, false, ◌≡◌, refl, sym, ap, ◌∙◌, Option, none, some, List, [], map, find?,
  if◌then◌else◌,
}
use sesfikile.Fuel.Models.{AuthorizationStatus, reserved, confirmed, VehicleQuota, Authorization}
use sesfikile.Fuel.Repo.{update_quota, with_quotas}
use sesfikile.Fuel.Pump.{
  ConfirmResult, has_reference, settle_quota, set_confirmed, settle_and_commit, confirm_found,
  confirm_pump,
}
use sesfikile.Wallet.Accounts.{scan, missing_to_not_found}
use sesfikile.Database.Schema.{Db}
use sesfikile.Database.Session.{
  Env, Session, Error, database, constraint, no_rows, not_found, Result, ok, err, catch, on_tx,
  query, tick, all_balanced,
}
use sesfikile.Database.Ensures.{
  Ensures, Ensures-pure, Ensures-raise, Ensures-bind, Ensures-catch, Ensures-mono, Ensures-read,
  Ensures-write, Ensures-begin, Ensures-commit, Aborts, Faulty,
}

-- Why a confirmation is refused.
abbrev pub ConfirmFailure : Env → ℕ → Db → Error → Type 0
ConfirmFailure env id d database = Faulty env
ConfirmFailure env id d not_found = find? (has_reference id) d.fuel_authorizations ≡ none
ConfirmFailure env id d constraint =
    (a : Authorization) × (now : ℕ) × (find? (has_reference id) d.fuel_authorizations ≡ some a)
    × (a.status ≡ reserved)
    × (update_quota a.vehicle_id (settle_quota a.amount_cents now) d.vehicle_fuel_quotas
        ≡ err constraint)
ConfirmFailure env id d e = ⊥

-- What a confirmation does to the session `a`: nothing, if it was confirmed; else the amount moves
-- from reserved to used on the vehicle's quota, and the session is confirmed.
abbrev pub Settled : Bool → Authorization → Db → Db → Type 0
Settled true a d d' = (a.status ≡ confirmed) × (d' ≡ d)
Settled false a d d' =
    (a.status ≡ reserved)
    × ((rows : List VehicleQuota) × (now : ℕ) × (later : ℕ) × (update_quota a.vehicle_id
            (settle_quota a.amount_cents now) d.vehicle_fuel_quotas
          ≡ ok rows)
        × (d' ≡ record d {
          vehicle_fuel_quotas = rows;
          fuel_authorizations = map (set_confirmed a.id later) d.fuel_authorizations;
        }))

pub record Confirmed (id : ℕ) (d : Db) (r : ConfirmResult) (d' : Db) : Type 0 where
  pub authorization : Authorization
  pub found : find? (has_reference id) d.fuel_authorizations ≡ some authorization
  pub vehicle : r.vehicle_id ≡ authorization.vehicle_id
  pub amount : r.amount_cents ≡ authorization.amount_cents
  pub settled : Settled r.already_confirmed authorization d d'

error_or : {A : Type 0} → Error → Result A → Error
error_or e (ok a) = e
error_or e (err x) = x

pub update_quota-refused :
    (v : ℕ) (f : VehicleQuota → VehicleQuota) (rows : List VehicleQuota)
    (r : Result (List VehicleQuota)) (d : Db) (e : Error)
    → update_quota v f rows ≡ r
    → with_quotas d tt r ≡ err e
    → (e ≡ constraint) × (update_quota v f rows ≡ err constraint)
unfolding update_quota error_or
update_quota-refused v f rows (ok xs) d e a h = cc
update_quota-refused v f rows (err x) d e a h =
    let same = refused _ _ a in (sym (ap (error_or e) h) ∙ same, a ∙ ap (λ (y : Error). err y) same)
  where
    refused :
        (b : Bool) (ys : List VehicleQuota)
        → (if b then err constraint else ok ys) ≡ err x
        → x ≡ constraint
    refused true ys k = sym (ap (error_or x) k)
    refused false ys k = cc

pub with_quotas-ok :
    (d t : Db) (r : Result (List VehicleQuota))
    → with_quotas d tt r ≡ ok (tt, t)
    → (rows : List VehicleQuota) × (r ≡ ok rows) × (t ≡ record d { vehicle_fuel_quotas = rows })
with_quotas-ok d t (ok rows) h = (rows, refl, sym (ap (tables_or d) h))
  where
    tables_or : Db → Result (Unit {0} × Db) → Db
    tables_or x (ok (u, y)) = y
    tables_or x (err e) = x
with_quotas-ok d t (err e) h = cc

pub tables_of :
    (t t' : Db) → (let r : Result (Unit {0} × Db) = ok (tt, t) in r ≡ ok (tt, t')) → t' ≡ t
tables_of t t' h = sym (ap tables_or h)
  where
    tables_or : Result (Unit {0} × Db) → Db
    tables_or (ok (u, y)) = y
    tables_or (err e) = t

-- A transaction that has just begun.
pub record Begun (d : Db) (s : Session) : Type 0 where
  pub pool : s.pool ≡ d
  pub tx : s.tx ≡ d
  pub touched : s.touched ≡ []

module _ ⦃env : Env⦄ (id : ℕ) (d : Db) where
  abbrev Unread : Session → Error → Session → Type 0
  Unread s database s' = (s' ≡ tick s) × Faulty env
  Unread s no_rows s' = (s' ≡ tick s) × (find? (has_reference id) s.tx.fuel_authorizations ≡ none)
  Unread s e s' = ⊥

  unread :
      (s : Session) (o : Option Authorization) (e : Error)
      → find? (has_reference id) s.tx.fuel_authorizations ≡ o
      → scan o ≡ err e
      → Unread s e (tick s)
  unread s none no_rows there h = (refl, there)
  unread s none _ there h = cc
  unread s (some a) e there h = cc

  some_of_scan : (o : Option Authorization) (a : Authorization) → scan o ≡ ok a → o ≡ some a
  some_of_scan none a h = cc
  some_of_scan (some b) a h = ap value h
    where
      value : Result Authorization → Option Authorization
      value (ok x) = some x
      value (err e) = some b

  missing :
      (s : Session) (e : Error) (s' : Session)
      → Begun d s
      → Unread s e s'
      → Ensures
          (Aborts d (ConfirmFailure env id d))
          (λ a s'. Begun d s' × (find? (has_reference id) d.fuel_authorizations ≡ some a))
          (missing_to_not_found {A = Authorization} e)
          s'
  missing s database s' b (at, down) = Ensures-raise database (rw at b.pool, down)
  missing s no_rows s' b (at, none_there) =
      Ensures-raise not_found (rw at b.pool, rw b.tx at none_there)
  missing s _ s' b u = absurd u

  find-Ensures :
      (s : Session)
      → Begun d s
      → Ensures
          (Aborts d (ConfirmFailure env id d))
          (λ a s'. Begun d s' × (find? (has_reference id) d.fuel_authorizations ≡ some a))
          (catch
            (query on_tx (λ x. scan (find? (has_reference id) x.fuel_authorizations)))
            missing_to_not_found)
          s
  find-Ensures s b =
      Ensures-catch
        (Ensures-mono
          (Ensures-read {E = Unread s} on_tx
            (λ x. scan (find? (has_reference id) x.fuel_authorizations)) s (λ down. (refl, down))
            (λ e h. unread s _ e refl h))
          (λ a s' h. (
            record { pool = rw h.0 b.pool; tx = rw h.0 b.tx; touched = rw h.0 b.touched },
            rw b.tx at (some_of_scan (find? (has_reference id) s.tx.fuel_authorizations) a h.1),
          ))
          (λ e s' h. h))
        (λ e s' h. missing s e s' b h)

  settle-Ensures :
      (a : Authorization) (s : Session)
      → Begun d s
      → find? (has_reference id) d.fuel_authorizations ≡ some a
      → a.status ≡ reserved
      → Ensures
          (Aborts d (ConfirmFailure env id d))
          (λ r s'. (r.already_confirmed ≡ false) × Confirmed id d r s'.pool)
          (settle_and_commit a)
          s
  unfolding settle_and_commit all_balanced
  settle-Ensures a s b found unsettled =
      Ensures-bind (Ensures-write fault _ b.pool (λ e h. refused e h)) λ _ s₂ w.
        Ensures-bind (Ensures-write fault _ (ap (λ (y : Session). y.pool) w.2 ∙ b.pool) (λ e h. cc))
          λ _ s₃ x.
            let pool₃ =
              ap (λ (y : Session). y.pool) x.2 ∙ ap (λ (y : Session). y.pool) w.2 ∙ b.pool in
            let touched₃ =
              ap (λ (y : Session). y.touched) x.2
              ∙ ap (λ (y : Session). y.touched) w.2
              ∙ b.touched in
            Ensures-bind (Ensures-commit fault pool₃ (rw touched₃ refl)) λ _ s₄ done.
              let q =
                with_quotas-ok s.tx w.0
                  (update_quota a.vehicle_id (settle_quota a.amount_cents (env.now s.clock))
                    s.tx.vehicle_fuel_quotas)
                  w.1 in
              let tables₂ =
                ap (λ (y : Session). y.tx) w.2
                ∙ q.2
                ∙ ap (λ (y : Db). record y { vehicle_fuel_quotas = q.0 }) b.tx in
              let tables₃ =
                ap (λ (y : Session). y.tx) x.2
                ∙ tables_of _ x.0 x.1
                ∙ ap
                    (λ (y : Db). record y {
                      fuel_authorizations =
                          map (set_confirmed a.id (env.now s₂.clock)) y.fuel_authorizations;
                    })
                    tables₂ in
              Ensures-pure _ (
                refl,
                record {
                  authorization = a;
                  found = found;
                  vehicle = refl;
                  amount = refl;
                  settled = (
                    unsettled,
                    (q.0, env.now s.clock, env.now s₂.clock, rw b.tx at q.1, done ∙ tables₃),
                  );
                },
              )
    where
      fault : Faulty env → ConfirmFailure env id d database
      fault h = h

      refused :
          (e : Error)
          → with_quotas s.tx tt (
              update_quota a.vehicle_id
                (settle_quota a.amount_cents (env.now s.clock))
                s.tx.vehicle_fuel_quotas)
            ≡ err e
          → ConfirmFailure env id d e
      refused e h =
          let r = update_quota-refused _ _ _ _ s.tx e refl h in
          rw r.0 (a, env.now s.clock, found, unsettled, rw b.tx at r.1)

  found-Ensures :
      (a : Authorization) (status : AuthorizationStatus) (s : Session)
      → Begun d s
      → find? (has_reference id) d.fuel_authorizations ≡ some a
      → a.status ≡ status
      → Ensures
          (Aborts d (ConfirmFailure env id d))
          (λ r s'. Confirmed id d r s'.pool)
          (confirm_found a status)
          s
  found-Ensures a confirmed s b found e = Ensures-pure _ (record {
    authorization = a;
    found = found;
    vehicle = refl;
    amount = refl;
    settled = (e, b.pool);
  })
  found-Ensures a reserved s b found e =
      Ensures-mono (settle-Ensures a s b found e) (λ r s' h. h.1) (λ e s' h. h)

module _ ⦃env : Env⦄ where
  -- A confirmation fails with the committed tables as before, because a database call failed, the
  -- reference is unknown, or the quota's checks refuse the amount of its reserved session; or it
  -- returns the session's vehicle and amount, and either the session was confirmed and nothing has
  -- changed, or it was reserved, and the amount has moved from reserved to used and the session is
  -- confirmed.
  pub confirm_pump-Ensures :
      (id : ℕ) (s : Session)
      → Ensures
          (Aborts s.pool (ConfirmFailure env id s.pool))
          (λ r s'. Confirmed id s.pool r s'.pool)
          (confirm_pump id)
          s
  unfolding confirm_pump
  confirm_pump-Ensures id s = Ensures-bind (Ensures-begin (λ h. h) refl) λ _ s₁ o.
      Ensures-bind (find-Ensures id s.pool s₁ (record { pool = o.0; tx = o.1; touched = o.2 }))
        λ a s₂ f. found-Ensures id s.pool a a.status s₂ f.0 f.1 refl
