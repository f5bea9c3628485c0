-- ===== src/Fuel/Pump/Reserving.antt =====
-- What a pump authorization does, by how it ends (backend/internal/fuel/viu_mock.go).
use sesfikile.Base.{
  ℕ, ◌+◌, true, ◌≡◌, refl, sym, ap, ◌∙◌, inl, inr, Option, none, some, List, [], ◌==◌, find?, map,
  if◌then◌else◌, Bool-cases, subst,
}
use sesfikile.Base.Int.{ℤ, pos, leb_ℤ}
use sesfikile.Fuel.Models.{VehicleQuota}
use sesfikile.Fuel.Repo.{is_consistent, is_quota_of, update_quota, with_quotas}
use sesfikile.Fuel.Pump.{
  insert_authorization, reserve, reserve_and_commit, authorize_against, authorize_pump,
}
use sesfikile.Fuel.Pump.Rows.{updated_rows, refused_rows, available-exact, is_available_lem}
use sesfikile.Fuel.Pump.Sessions.{update_quota-refused, with_quotas-ok, Begun}
use sesfikile.Database.Schema.{Db}
use sesfikile.Database.Session.{
  Env, Session, Error, database, constraint, invalid_amount, Result, ok, err, on_tx, begin,
  all_balanced,
}
use sesfikile.Database.Ensures.{
  Ensures, Ensures-pure, Ensures-raise_if, Ensures-bind, Ensures-mono, Ensures-query, Ensures-write,
  Ensures-commit, Aborts, Faulty,
}
use sesfikile.Fuel.Pump.Inserting.{
  with_amount, IsAvailable, AuthorizeFailure, Reserved, with_session, inserted, not_inserted,
  Decided,
}

module _ ⦃env : Env⦄ (vehicle litres : ℕ) (amount : ℤ) (d : Db) (drawn : ℕ) where
  abbrev Fails : Error → Type 0
  Fails = AuthorizeFailure vehicle litres amount d env drawn

  fault : Faulty env → Fails database
  fault h = h

  abbrev raise_row : (id now : ℕ) → Db → Result (Unit {0} × Db)
  raise_row id now t =
      with_quotas t tt (update_quota vehicle (reserve amount now) t.vehicle_fuel_quotas)

  not_raised :
      (id n now : ℕ) (t : Db) (e : Error)
      → t ≡ with_session vehicle litres amount d id n
      → raise_row id now t ≡ err e
      → Fails e
  not_raised id n now t e same h =
      let r = update_quota-refused _ _ _ _ t e refl h in
      subst Fails {x = constraint} (sym r.0) (
        inr (
          now,
          refused_rows vehicle (with_amount vehicle litres amount d now) d.vehicle_fuel_quotas
              constraint (rw same at r.1),
        ))

  raised_row :
      (id n now : ℕ) (t t' : Db)
      → t ≡ with_session vehicle litres amount d id n
      → raise_row id now t ≡ ok (tt, t')
      → t' ≡ record (with_session vehicle litres amount d id n) {
        vehicle_fuel_quotas =
            map
              (λ q.
                if q.vehicle_id == vehicle then with_amount vehicle litres amount d now q else q)
              d.vehicle_fuel_quotas;
      }
  raised_row id n now t t' same h =
      let r =
        with_quotas-ok t t' (update_quota vehicle (reserve amount now) t.vehicle_fuel_quotas) h in
      r.2
      ∙ ap (λ (y : Db). record y { vehicle_fuel_quotas = r.0 }) same
      ∙ ap
          (λ (rows : List VehicleQuota). record (with_session vehicle litres amount d id n) {
            vehicle_fuel_quotas = rows;
          })
          (updated_rows vehicle (with_amount vehicle litres amount d now) d.vehicle_fuel_quotas r.0
            (rw same at r.1))

  reserve-Ensures :
      (q : VehicleQuota) (s : Session)
      → Begun d s
      → find? (is_quota_of vehicle) d.vehicle_fuel_quotas ≡ some q
      → IsAvailable vehicle litres amount d q
      → env.new_id s.clock ≡ drawn
      → Ensures
          (Aborts d Fails)
          (λ r s'. Reserved vehicle litres amount d drawn r s'.pool)
          (reserve_and_commit vehicle litres amount)
          s
  unfolding reserve_and_commit all_balanced
  reserve-Ensures q s b there enough drew =
      Ensures-bind
        (Ensures-write fault (insert_authorization vehicle litres amount) b.pool (λ e h.
          not_inserted vehicle litres amount d env drawn (env.now s.clock) e
            (rw (b.tx, drew) at h)))
        λ id s₂ w.
          let new =
            inserted vehicle litres amount d drawn (env.now s.clock) id w.0
              (rw (b.tx, drew) at w.1) in
          let tx₂ = ap (λ (y : Session). y.tx) w.2 ∙ new.2 in
          let pool₂ = ap (λ (y : Session). y.pool) w.2 ∙ b.pool in
          let touched₂ = ap (λ (y : Session). y.touched) w.2 ∙ b.touched in
          Ensures-bind
            (Ensures-write fault raise_row pool₂
              (λ e h. not_raised drawn (env.now s.clock) (env.now s₂.clock) s₂.tx e tx₂ h))
            λ _ s₃ x.
              let up = raised_row drawn (env.now s.clock) (env.now s₂.clock) s₂.tx x.0 tx₂ x.1 in
              let pool₃ = ap (λ (y : Session). y.pool) x.2 ∙ pool₂ in
              let touched₃ = ap (λ (y : Session). y.touched) x.2 ∙ touched₂ in
              Ensures-bind (Ensures-commit fault pool₃ (rw touched₃ refl)) λ _ s₄ done.
                Ensures-pure _ (record {
                  quota = q;
                  there = there;
                  enough = enough;
                  unused = new.1;
                  result = rw new.0 refl;
                  now = env.now s.clock;
                  later = env.now s₂.clock;
                  tables = done ∙ ap (λ (y : Session). y.tx) x.2 ∙ up;
                })

  against-Ensures :
      (o : Option VehicleQuota) (s : Session)
      → Begun d s
      → find? (is_quota_of vehicle) d.vehicle_fuel_quotas ≡ o
      → ((q : VehicleQuota) → o ≡ some q → is_consistent q ≡ true)
      → env.new_id s.clock ≡ drawn
      → Ensures
          (Aborts d Fails)
          (Decided vehicle litres amount d drawn)
          (authorize_against vehicle litres amount o)
          s
  against-Ensures none s b there fine drew = Ensures-pure _ (inl (b.pool, inl (there, refl)))
  against-Ensures (some q) s b there fine drew =
      let same = available-exact q (fine q refl) in
      elim (is_available_lem q.quota_cents q.reserved_cents q.used_cents amount) [
        | inr (short, more) ↦
            rw (same, short) (Ensures-pure _ (inl (b.pool, inr (q, there, more, refl))))
        | inl (enough, yes_available) ↦
            rw (same, enough)
              (Ensures-mono (reserve-Ensures q s b there yes_available drew) (λ r s' h. inr h)
                (λ e s' h. h))
      ]

module _ ⦃env : Env⦄ where
  -- `begin` is one call.
  begin_lem :
      {R : Error → Type 0} (s : Session)
      → (Faulty env → R database)
      → Ensures
          (Aborts s.pool R)
          (λ _ s'.
            (s'.clock ≡ s.clock + 1) × (s'.pool ≡ s.pool) × (s'.tx ≡ s.pool) × (s'.touched ≡ []))
          begin
          s
  unfolding begin
  begin_lem s fault = elim (Bool-cases (env.fails s.clock)) [
    | inl down ↦ record { holds = rw down (refl, fault (s.clock, down)) }
    | inr up ↦ record { holds = rw up (refl, refl, refl, refl) }
  ]

  -- While the CHECKs hold of the vehicle's quota, and with the id that the database draws for the
  -- session: an authorization fails with the committed tables as before, because a database call
  -- failed, the amount is not positive, that id is taken as a reference, or a check of the tables
  -- refuses the litres or the reservation. It is denied, and nothing changes, if the vehicle has no
  -- quota, or the amount and what is reserved and used are more than the quota; what is left is
  -- then reported. Otherwise the amount fits in the quota, it is added to what is reserved on the
  -- vehicle's row, which is otherwise only given a time, and one session for it is added,
  -- reserved, under that id, which is returned, and which no session had.
  pub authorize_pump-Ensures :
      (vehicle litres : ℕ) (amount : ℤ) (s : Session)
      → ((q : VehicleQuota)
          → find? (is_quota_of vehicle) s.pool.vehicle_fuel_quotas ≡ some q
          → is_consistent q ≡ true)
      → Ensures
          (Aborts s.pool
            (AuthorizeFailure vehicle litres amount s.pool env (env.new_id (s.clock + 1 + 1))))
          (Decided vehicle litres amount s.pool (env.new_id (s.clock + 1 + 1)))
          (authorize_pump vehicle litres amount)
          s
  unfolding authorize_pump
  authorize_pump-Ensures vehicle litres amount s fine =
      let drawn = env.new_id (s.clock + 1 + 1) in
      Ensures-bind (Ensures-raise_if (leb_ℤ amount (pos 0)) invalid_amount refl (λ h. h)) λ _ s₁ r.
        Ensures-bind
          (subst
            (λ (x : Session).
              Ensures (Aborts s.pool (AuthorizeFailure vehicle litres amount s.pool env drawn))
                (λ _ s'.
                  (s'.clock ≡ s.clock + 1)
                  × (s'.pool ≡ s.pool)
                  × (s'.tx ≡ s.pool)
                  × (s'.touched ≡ []))
                begin x)
            (sym r.0) (begin_lem s (fault vehicle litres amount s.pool drawn)))
          λ _ s₂ o.
            Ensures-bind
              (Ensures-query (fault vehicle litres amount s.pool drawn) on_tx
                (λ d. ok (find? (is_quota_of vehicle) d.vehicle_fuel_quotas)) o.1 (λ e h. cc h))
              λ found s₃ f.
                let read : find? (is_quota_of vehicle) s₂.tx.vehicle_fuel_quotas ≡ found = cc f.1 in
                against-Ensures vehicle litres amount s.pool drawn found s₃
                  (record { pool = rw f.0 o.1; tx = rw f.0 o.2; touched = rw f.0 o.3 })
                  (rw o.2 at read) (λ q e. fine q ((rw o.2 at read) ∙ e)) (rw (f.0, o.0) refl)
