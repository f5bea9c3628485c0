-- ===== src/Fuel/Pump/Rows.antt =====
-- The rows that an UPDATE of vehicle_fuel_quotas leaves, and what AvailableCents is while the
-- CHECKs of the table hold (backend/internal/fuel/repo.go, models.go).
use sesfikile.Base.{
  ℕ, true, false, not, ◌≡◌, refl, sym, ap, ◌∙◌, ◌⊎◌, inl, inr, List, map, any, ◌==◌, ◌&&◌,
  if◌then◌else◌, Bool-cases, arith,
}
use sesfikile.Base.Int.{ℤ, pos, negsuc, ◌+ℤ◌, ◌-ℤ◌, ◌≤ℤ◌, ltb_ℤ, +ℤ_parts, -ℤ_parts}
use sesfikile.Base.Word.{Fits64, i64-fits}
use sesfikile.Fuel.Models.{VehicleQuota, available_cents}
use sesfikile.Fuel.Repo.{is_consistent, update_quota}
use sesfikile.Database.Session.{Error, constraint, Result, ok, err}

module _ (vehicle : ℕ) (f : VehicleQuota → VehicleQuota) (rows : List VehicleQuota) where
  -- Some row of the vehicle would break a CHECK.
  abbrev pub Breaks : Type 0
  Breaks = any (λ q. q.vehicle_id == vehicle && not (is_consistent (f q))) rows ≡ true

  update_quota_cases :
      (Breaks × (update_quota vehicle f rows ≡ err constraint))
      ⊎ (update_quota vehicle f rows
          ≡ ok (map (λ q. if q.vehicle_id == vehicle then f q else q) rows))
  unfolding update_quota
  update_quota_cases =
      elim (Bool-cases (any (λ q. q.vehicle_id == vehicle && not (is_consistent (f q))) rows)) [
        | inl bad ↦ inl (bad, rw (update_quota, bad) refl)
        | inr good ↦ inr (rw (update_quota, good) refl)
      ]

  rows_or : Result (List VehicleQuota) → List VehicleQuota
  rows_or (ok xs) = xs
  rows_or (err e) = rows

  pub updated_rows :
      (rows' : List VehicleQuota)
      → update_quota vehicle f rows ≡ ok rows'
      → rows' ≡ map (λ q. if q.vehicle_id == vehicle then f q else q) rows
  unfolding rows_or
  updated_rows rows' h = elim update_quota_cases [
    | inl (bad, e) ↦ cc (e, h)
    | inr e ↦ ap rows_or (sym h ∙ e)
  ]

  pub refused_rows : (e : Error) → update_quota vehicle f rows ≡ err e → Breaks
  refused_rows e h = elim update_quota_cases [ inl (bad, x) ↦ bad | inr x ↦ cc (x, h) ]

exact :
    (a b c : ℤ)
    → pos 0 ≤ℤ b
    → pos 0 ≤ℤ c
    → b +ℤ c ≤ℤ a
    → Fits64 a
    → Fits64 (a -ℤ b) × Fits64 ((a -ℤ b) -ℤ c)
unfolding ◌+ℤ◌ ◌-ℤ◌
exact (pos a) (pos b) (pos c) hb hc h fits = ground arith
exact (pos a) (negsuc b) c hb hc h fits = absurd (omega arith)
exact (negsuc a) (negsuc b) c hb hc h fits = absurd (omega arith)
exact a (pos b) (negsuc c) hb hc h fits = absurd (omega arith)
exact (negsuc a) (pos b) (pos c) hb hc h fits = absurd (omega (arith, +ℤ_parts (pos b) (pos c)))

-- Under the CHECKs, no subtraction of AvailableCents wraps.
pub available-exact :
    (q : VehicleQuota)
    → is_consistent q ≡ true
    → available_cents q ≡ (q.quota_cents -ℤ q.reserved_cents) -ℤ q.used_cents
unfolding available_cents
available-exact q h =
    let fits =
      exact q.quota_cents q.reserved_cents q.used_cents (ground arith) (ground arith) (ground arith)
        (ground arith) in
    rw (i64-fits (q.quota_cents -ℤ q.reserved_cents) fits.0)
      (i64-fits ((q.quota_cents -ℤ q.reserved_cents) -ℤ q.used_cents) fits.1)

-- An amount is available if it can be reserved besides what is reserved and used.
pub is_available_lem :
    (a b c x : ℤ)
    → ((ltb_ℤ ((a -ℤ b) -ℤ c) x ≡ false) × ((b +ℤ c) +ℤ x ≤ℤ a))
      ⊎ ((ltb_ℤ ((a -ℤ b) -ℤ c) x ≡ true) × (¬ ((b +ℤ c) +ℤ x ≤ℤ a)))
is_available_lem a b c x = elim (Bool-cases (ltb_ℤ ((a -ℤ b) -ℤ c) x)) [
  | inl short ↦ inr (
    short,
    λ h. ground (arith, -ℤ_parts a b, -ℤ_parts (a -ℤ b) c, +ℤ_parts b c, +ℤ_parts (b +ℤ c) x),
  )
  | inr enough ↦
      inl (
        enough,
        ground (arith, -ℤ_parts a b, -ℤ_parts (a -ℤ b) c, +ℤ_parts b c, +ℤ_parts (b +ℤ c) x),
      )
]
