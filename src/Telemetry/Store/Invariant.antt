-- ===== src/Telemetry/Store/Invariant.antt =====
-- The invariant of the tracked vehicles, and the methods of the store
-- (backend/internal/telemetry/store.go).
use sesfikile.Base.{
  ◌⊎◌, ℕ, true, ◌≡◌, ◌≢◌, refl, ap, Option, none, some, List, [], ◌∷◌, All, ◌==◌, inl, inr, ==_iff,
  subst, Bool-cases, Option-cases, arith,
}
use sesfikile.Base.Int.{ℤ, pos, ◌+ℤ◌, ◌≤ℤ◌, ltb_ℤ}
use sesfikile.Base.Word.{i64}
use sesfikile.Base.Dict.{lookup, insert, erase, lookup-insert, lookup-erase}
use sesfikile.Telemetry.Store.{
  VehicleState, VehicleStateStore, clamp, seats_at_start, change, go_online, go_offline,
  update_position, adjust_seats, set_seats_absolute, get,
}

-- A tracked vehicle is online, stands under its own id, and has between 0 and all of its seats free.
pub record IsTracked (k : ℕ) (v : VehicleState) : Type 0 where
  pub own_key : v.vehicle_id ≡ k
  pub is_online : v.online ≡ true
  pub not_negative : pos 0 ≤ℤ v.seats_available
  pub within : v.seats_available ≤ℤ v.seats_total

abbrev pub IsValid : VehicleStateStore → Type 0
IsValid s = (k : ℕ) (v : VehicleState) → lookup k s ≡ some v → IsTracked k v

pub clamp_bounds :
    (v max : ℤ) → pos 0 ≤ℤ max → (pos 0 ≤ℤ clamp v (pos 0) max) × (clamp v (pos 0) max ≤ℤ max)
unfolding clamp
clamp_bounds v max h = ground arith

-- The calls of the store's methods that change it.
pub data Call : Type 0 where
  online : (vehicle route driver : ℕ) → ℤ → ℕ → Call
  offline : ℕ → Call
  position : (vehicle lat lng now : ℕ) → Call
  seats_delta : ℕ → ℤ → ℕ → Call
  seats_absolute : ℕ → ℤ → ℕ → Call

unfoldable pub apply : Call → VehicleStateStore → VehicleStateStore
apply (online v r d seats now) s = (go_online v r d seats now s).0
apply (offline v) s = (go_offline v s).0
apply (position v lat lng now) s = (update_position v lat lng now s).0
apply (seats_delta v delta now) s = (adjust_seats v delta now s).0
apply (seats_absolute v seats now) s = (set_seats_absolute v seats now s).0

unfoldable pub run : List Call → VehicleStateStore → VehicleStateStore
run [] s = s
run (c ∷ cs) s = run cs (apply c s)

-- A vehicle's capacity is not negative.
abbrev pub HasSeats : Call → Type 0
HasSeats (online v r d seats now) = pos 0 ≤ℤ seats
HasSeats c = Unit {0}

-- A tracked vehicle has all of its seats, at least.
seats_total_nonneg : (k : ℕ) (v : VehicleState) → IsTracked k v → pos 0 ≤ℤ v.seats_total
seats_total_nonneg k v t = omega (arith, t.not_negative, t.within)

some-eq : (v w : VehicleState) → some v ≡ some w → v ≡ w
some-eq v w e = ap (λ (o : Option VehicleState). elim o [ none ↦ v | some y ↦ y ]) e

insert-IsValid :
    (k : ℕ) (v : VehicleState) (s : VehicleStateStore)
    → IsValid s
    → IsTracked k v
    → IsValid (insert k v s)
insert-IsValid k v s h t j w e = elim (Bool-cases (k == j)) [
  | inl same ↦
      let vw : v ≡ w = some-eq v w (rw (lookup-insert, same) at e) in
      subst (λ (y : VehicleState). IsTracked j y) vw
        (subst (λ (y : ℕ). IsTracked y v) ((==_iff k j).0 same) t)
  | inr other ↦ h j w (rw (lookup-insert, other) at e)
]

erase-IsValid : (k : ℕ) (s : VehicleStateStore) → IsValid s → IsValid (erase k s)
erase-IsValid k s h j w e = elim (Bool-cases (k == j)) [
  | inl same ↦ cc (rw (lookup-erase, same) at e)
  | inr other ↦ h j w (rw (lookup-erase, other) at e)
]

seats_at_start_bounds :
    (k : ℕ) (o : Option VehicleState) (seats : ℤ)
    → pos 0 ≤ℤ seats
    → (pos 0 ≤ℤ seats_at_start o seats) × (seats_at_start o seats ≤ℤ seats)
seats_at_start_bounds k none seats h = (h, omega arith)
seats_at_start_bounds k (some v) seats h = clamp_bounds v.seats_available seats h

change-IsValid :
    (v : ℕ) (f : VehicleState → VehicleState) (s : VehicleStateStore)
    → ((w : VehicleState) → IsTracked v w → IsTracked v (f w))
    → IsValid s
    → IsValid (change v f s).0
change-IsValid v f s keep h = elim (Option-cases (lookup v s)) [
  | inl e ↦ rw (e, change) h
  | inr (w, e) ↦ rw (e, change) (insert-IsValid v (f w) s h (keep w (h v w e)))
]

go_offline-IsValid : (v : ℕ) (s : VehicleStateStore) → IsValid s → IsValid (go_offline v s).0
unfolding go_offline
go_offline-IsValid v s h = elim (Option-cases (lookup v s)) [
  | inl e ↦ rw (e, go_offline) h
  | inr (w, e) ↦ rw (e, go_offline) (erase-IsValid v s h)
]

reseat :
    (v : ℕ) (w : VehicleState) (seats : ℤ) (now : ℕ)
    → IsTracked v w
    → IsTracked v
        (record w { seats_available = clamp seats (pos 0) w.seats_total; last_updated = now })
reseat v w seats now t =
    let b = clamp_bounds seats w.seats_total (seats_total_nonneg v w t) in
    record { own_key = t.own_key; is_online = t.is_online; not_negative = b.0; within = b.1 }

apply-IsValid : (c : Call) (s : VehicleStateStore) → HasSeats c → IsValid s → IsValid (apply c s)
unfolding apply go_online update_position adjust_seats set_seats_absolute
apply-IsValid (online v r d seats now) s p h =
    let b = seats_at_start_bounds v (lookup v s) seats p in
    insert-IsValid v _ s h
      (record { own_key = refl; is_online = refl; not_negative = b.0; within = b.1 })
apply-IsValid (offline v) s p h = go_offline-IsValid v s h
apply-IsValid (position v lat lng now) s p h =
    change-IsValid v _ s
      (λ w t. record {
        own_key = t.own_key;
        is_online = t.is_online;
        not_negative = t.not_negative;
        within = t.within;
      })
      h
apply-IsValid (seats_delta v delta now) s p h =
    change-IsValid v _ s (λ w t. reseat v w (i64 (w.seats_available +ℤ delta)) now t) h
apply-IsValid (seats_absolute v seats now) s p h =
    change-IsValid v _ s (λ w t. reseat v w seats now t) h

-- After any calls in which every capacity is at least 0, a store that was valid tracks each vehicle
-- under its own id, online, with between 0 and all of its seats free.
pub run-IsValid :
    (cs : List Call) (s : VehicleStateStore) → All HasSeats cs → IsValid s → IsValid (run cs s)
unfolding run
run-IsValid [] s p h = h
run-IsValid (c ∷ cs) s p h = run-IsValid cs (apply c s) p.1 (apply-IsValid c s p.0 h)

pub empty-IsValid : IsValid []
unfolding lookup
empty-IsValid k v e = cc

-- The vehicle that a call is about.
abbrev pub subject : Call → ℕ
subject (online v r d seats now) = v
subject (offline v) = v
subject (position v lat lng now) = v
subject (seats_delta v delta now) = v
subject (seats_absolute v seats now) = v

change-lookup_ne :
    (v k : ℕ) (f : VehicleState → VehicleState) (s : VehicleStateStore)
    → v ≢ k
    → lookup k (change v f s).0 ≡ lookup k s
change-lookup_ne v k f s ne = elim (Option-cases (lookup v s)) [
  | inl e ↦ ground (arith, change, e)
  | inr (w, e) ↦ rw (e, change) (rw lookup-insert (ground arith))
]

go_offline-lookup_ne :
    (v k : ℕ) (s : VehicleStateStore) → v ≢ k → lookup k (go_offline v s).0 ≡ lookup k s
unfolding go_offline
go_offline-lookup_ne v k s ne = elim (Option-cases (lookup v s)) [
  | inl e ↦ ground (arith, go_offline, e)
  | inr (w, e) ↦ rw (e, go_offline) (rw lookup-erase (ground arith))
]

-- A call leaves the state of every other vehicle as it is.
pub apply-get_ne :
    (c : Call) (k : ℕ) (s : VehicleStateStore) → subject c ≢ k → get k (apply c s) ≡ get k s
unfolding apply get go_online update_position adjust_seats set_seats_absolute
apply-get_ne (online v r d seats now) k s ne = rw lookup-insert (ground arith)
apply-get_ne (offline v) k s ne = go_offline-lookup_ne v k s ne
apply-get_ne (position v lat lng now) k s ne = change-lookup_ne v k _ s ne
apply-get_ne (seats_delta v delta now) k s ne = change-lookup_ne v k _ s ne
apply-get_ne (seats_absolute v seats now) k s ne = change-lookup_ne v k _ s ne

offline-forgets :
    (k : ℕ) (v : VehicleState) (s : VehicleStateStore)
    → lookup k s ≡ some v
    → get k (go_offline k s).0 ≡ none
unfolding go_offline get
offline-forgets k v s e = rw (e, go_offline) (rw lookup-erase (ground arith))

-- The seats that stay free of `v` under a capacity.
abbrev pub IsKept : (v seats r : ℤ) → Type 0
IsKept v seats r =
    ((pos 0 ≤ℤ v) × (v ≤ℤ seats) × (r ≡ v))
    ⊎ ((pos 0 ≤ℤ v) × (¬ (v ≤ℤ seats)) × (r ≡ seats))
    ⊎ ((¬ (pos 0 ≤ℤ v)) × (r ≡ pos 0))

pub clamp-IsKept : (v seats : ℤ) → IsKept v seats (clamp v (pos 0) seats)
unfolding clamp
clamp-IsKept v seats = elim (Bool-cases (ltb_ℤ v (pos 0))) [
  | inl low ↦ inr (inr ((λ x. ground arith), rw low refl))
  | inr fine ↦ elim (Bool-cases (ltb_ℤ seats v)) [
    | inl high ↦ inr (inl (ground arith, (λ x. ground arith), rw (fine, high) refl))
    | inr within ↦ inl (ground arith, ground arith, rw (fine, within) refl)
  ]
]

-- A tracked vehicle that comes online again is tracked with its new route, driver and capacity,
-- at its old position. It keeps its free seats if the new capacity has room for them, and else has
-- all of the new seats free; a number of free seats below 0 becomes 0. A vehicle that goes offline
-- is not tracked.
pub reconnect :
    (k route driver : ℕ) (seats : ℤ) (now : ℕ) (v : VehicleState) (s : VehicleStateStore)
    → get k s ≡ some v
    → ((r : ℤ) × IsKept v.seats_available seats r
        × ((go_online k route driver seats now s).1 ≡ record {
          vehicle_id = k;
          route_id = route;
          driver_id = driver;
          lat = v.lat;
          lng = v.lng;
          seats_total = seats;
          seats_available = r;
          online = true;
          last_updated = now;
        })
        × (get k (go_online k route driver seats now s).0
            ≡ some (go_online k route driver seats now s).1))
      × (get k (go_offline k s).0 ≡ none)
unfolding go_online get
reconnect k route driver seats now v s e = (
  (
    clamp v.seats_available (pos 0) seats,
    clamp-IsKept v.seats_available seats,
    rw e refl,
    rw e (rw lookup-insert (ground arith)),
  ),
  offline-forgets k v s e,
)
