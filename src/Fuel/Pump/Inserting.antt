-- ===== src/Fuel/Pump/Inserting.antt =====
-- The words in which a pump authorization is described (backend/internal/fuel/viu_mock.go), and the
-- insert of its session.
use sesfikile.Base.{
  ℕ, ◌^◌, true, false, ◌≡◌, refl, sym, ap, ◌∙◌, ◌⊎◌, inl, inr, none, some, [], ◌∷◌, ◌++◌, ◌||◌, leb,
  ◌==◌, find?, any, map, if◌then◌else◌, Bool-cases, subst,
}
use sesfikile.Base.Int.{ℤ, pos, ◌+ℤ◌, ◌-ℤ◌, ◌≤ℤ◌, leb_ℤ}
use sesfikile.Base.Text.{bytes}
use sesfikile.Fuel.Models.{reserved, VehicleQuota}
use sesfikile.Fuel.Repo.{is_quota_of}
use sesfikile.Fuel.Pump.{AuthResult, has_reference, new_authorization, insert_authorization}
use sesfikile.Fuel.Pump.Rows.{Breaks}
use sesfikile.Database.Schema.{Db}
use sesfikile.Database.Session.{
  Env, Session, Error, database, constraint, unique_violation, invalid_amount, Result, ok, err,
}
use sesfikile.Database.Ensures.{Faulty}

module _ (vehicle litres : ℕ) (amount : ℤ) (d : Db) where
  -- The row of a vehicle with the amount reserved.
  abbrev pub with_amount : ℕ → VehicleQuota → VehicleQuota
  with_amount later q = record {
    vehicle_id = q.vehicle_id;
    owner_user_id = q.owner_user_id;
    quota_cents = q.quota_cents;
    reserved_cents = q.reserved_cents +ℤ amount;
    used_cents = q.used_cents;
    updated_at = later;
  }

  -- The amount can be reserved on a row besides what is reserved and used of it.
  abbrev pub IsAvailable : VehicleQuota → Type 0
  IsAvailable q = (q.reserved_cents +ℤ q.used_cents) +ℤ amount ≤ℤ q.quota_cents

  -- Why an authorization ends in an error, where the database draws an id for its session.
  abbrev pub AuthorizeFailure : Env → (drawn : ℕ) → Error → Type 0
  AuthorizeFailure env drawn database = Faulty env
  AuthorizeFailure env drawn invalid_amount = leb_ℤ amount (pos 0) ≡ true
  AuthorizeFailure env drawn unique_violation =
      any (has_reference drawn) d.fuel_authorizations ≡ true
  AuthorizeFailure env drawn constraint =
      ((litres == 0 || leb (10 ^ 10) litres || leb_ℤ amount (pos 0)) ≡ true)
      ⊎ ((later : ℕ) × Breaks vehicle (with_amount later) d.vehicle_fuel_quotas)
  AuthorizeFailure env drawn e = ⊥

  -- The vehicle has no quota, or has less available than the amount: nothing changes.
  abbrev pub IsDenied : AuthResult → Db → Type 0
  IsDenied r d' =
      (d' ≡ d)
      × (((find? (is_quota_of vehicle) d.vehicle_fuel_quotas ≡ none)
            × (r ≡ record {
              authorized = false;
              reason = bytes "no fuel quota allocated for this vehicle";
              auth_reference = 0;
              max_amount_cents = pos 0;
            }))
          ⊎ ((q : VehicleQuota) × (find? (is_quota_of vehicle) d.vehicle_fuel_quotas ≡ some q)
              × (¬ IsAvailable q)
              × (r ≡ record {
                authorized = false;
                reason = bytes "requested amount exceeds available fuel quota";
                auth_reference = 0;
                max_amount_cents = (q.quota_cents -ℤ q.reserved_cents) -ℤ q.used_cents;
              })))

  -- The amount is available, it is reserved on the vehicle's rows, and a session for it is stored
  -- under the id that was drawn, which no other has.
  pub record Reserved (drawn : ℕ) (r : AuthResult) (d' : Db) : Type 0 where
    pub quota : VehicleQuota
    pub there : find? (is_quota_of vehicle) d.vehicle_fuel_quotas ≡ some quota
    pub enough : IsAvailable quota
    pub unused : any (has_reference drawn) d.fuel_authorizations ≡ false
    pub result : r ≡ record {
      authorized = true;
      reason = [];
      auth_reference = drawn;
      max_amount_cents = amount;
    }
    pub now : ℕ
    pub later : ℕ
    pub tables : d' ≡ record d {
      vehicle_fuel_quotas =
          map
            (λ q. if q.vehicle_id == vehicle then with_amount later q else q)
            d.vehicle_fuel_quotas;
      fuel_authorizations =
          d.fuel_authorizations
          ++ record {
            id = drawn;
            vehicle_id = vehicle;
            litres = litres;
            amount_cents = amount;
            status = reserved;
            created_at = now;
            confirmed_at = none;
          }
            ∷ [];
    }

  abbrev pub with_session : (id now : ℕ) → Db
  with_session id now = record d {
    fuel_authorizations =
        d.fuel_authorizations ++ new_authorization vehicle litres amount id now ∷ [];
  }

  insert_cases :
      (id now : ℕ)
      → ((any (has_reference id) d.fuel_authorizations ≡ false)
          × (insert_authorization vehicle litres amount id now d ≡ ok (id, with_session id now)))
        ⊎ ((any (has_reference id) d.fuel_authorizations ≡ true)
            × (insert_authorization vehicle litres amount id now d ≡ err unique_violation))
        ⊎ (((litres == 0 || leb (10 ^ 10) litres || leb_ℤ amount (pos 0)) ≡ true)
            × (insert_authorization vehicle litres amount id now d ≡ err constraint))
  unfolding insert_authorization
  insert_cases id now = elim (Bool-cases (any (has_reference id) d.fuel_authorizations)) [
    | inl taken ↦ inr (inl (taken, rw (insert_authorization, taken) refl))
    | inr free ↦ elim (Bool-cases (litres == 0 || leb (10 ^ 10) litres || leb_ℤ amount (pos 0))) [
      | inl bad ↦ inr (inr (bad, rw (insert_authorization, free, bad) refl))
      | inr good ↦ inl (free, rw (insert_authorization, free, good) refl)
    ]
  ]

  row_of : ℕ → Result (ℕ × Db) → ℕ
  row_of n (ok (id, t)) = id
  row_of n (err e) = n

  db_of : Result (ℕ × Db) → Db
  db_of (ok (id, t)) = t
  db_of (err e) = d

  pub inserted :
      (id now id' : ℕ) (t : Db)
      → insert_authorization vehicle litres amount id now d ≡ ok (id', t)
      → (id' ≡ id)
        × (any (has_reference id) d.fuel_authorizations ≡ false)
        × (t ≡ with_session id now)
  unfolding row_of db_of
  inserted id now id' t h = elim (insert_cases id now) [
    | inl (free, e) ↦ (sym (ap (row_of id) (sym e ∙ h)), free, sym (ap db_of (sym e ∙ h)))
    | inr (inl (_, e)) ↦ cc (e, h)
    | inr (inr (_, e)) ↦ cc (e, h)
  ]

  pub not_inserted :
      (env : Env) (drawn now : ℕ) (e : Error)
      → insert_authorization vehicle litres amount drawn now d ≡ err e
      → AuthorizeFailure env drawn e
  not_inserted env drawn now e h = elim (insert_cases drawn now) [
    | inl (free, x) ↦ cc (x, h)
    | inr (inl (taken, x)) ↦
        subst (AuthorizeFailure env drawn) {x = unique_violation} (cc (x, h)) taken
    | inr (inr (bad, x)) ↦ subst (AuthorizeFailure env drawn) {x = constraint} (cc (x, h)) (inl bad)
  ]

  -- What an authorization ends in, when it does not fail.
  abbrev pub Decided : (drawn : ℕ) → AuthResult → Session → Type 0
  Decided drawn r s' = IsDenied r s'.pool ⊎ Reserved drawn r s'.pool
