-- ===== src/Stops/Match/Nearest.antt =====
-- Which driver backend/internal/stops/match.go picks.
use sesfikile.Base.{
  ℕ, Bool, true, false, ◌≡◌, refl, Option, none, some, List, [], ◌∷◌, All, ◌⊎◌, inl, inr,
  Bool-cases,
}
use sesfikile.Stops.Models.{Floats}
use sesfikile.Stops.Match.{
  RouteStop, DriverPosition, Candidate, stop_sequence_index, has_passed, candidate_of,
  choose_driver, find_approaching_driver,
}
use sesfikile.Routing.Best.{Any}

-- What IEEE 754 says of `<` on the floats that are numbers.
pub record IsOrder (number : ℕ → Bool) (less : ℕ → ℕ → Bool) : Type 0 where
  pub irreflexive : (a : ℕ) → less a a ≡ false
  pub asymmetric : (a b : ℕ) → less a b ≡ true → less b a ≡ false
  pub transitive :
      (a b c : ℕ)
      → number a ≡ true
      → number b ≡ true
      → number c ≡ true
      → less b a ≡ false
      → less c b ≡ false
      → less c a ≡ false

module _ (float : Floats) (number : ℕ → Bool) (stops : List RouteStop) (target : RouteStop) where
  -- A driver's distance to the target is a number.
  abbrev pub Measured : DriverPosition → Type 0
  Measured d = number (candidate_of float target d).distance_meters ≡ true

  -- `c` is the driver that is nearest to the target, among those that have not passed the
  -- target's index.
  abbrev pub IsNearest : ℕ → List DriverPosition → Option Candidate → Type 0
  IsNearest i drivers none = All (λ (d : DriverPosition). has_passed float stops i d ≡ true) drivers
  IsNearest i drivers (some c) =
      Any
        (λ (d : DriverPosition).
          (has_passed float stops i d ≡ false) × (candidate_of float target d ≡ c))
        drivers
      × All
          (λ (d : DriverPosition).
            has_passed float stops i d ≡ false
            → float.less (candidate_of float target d).distance_meters c.distance_meters ≡ false)
          drivers

  -- The same with a candidate that was found before.
  abbrev Holds : ℕ → Option Candidate → List DriverPosition → Option Candidate → Type 0
  Holds i none drivers r = IsNearest i drivers r
  Holds i (some b) drivers none = ⊥
  Holds i (some b) drivers (some c) =
      ((b ≡ c)
        ⊎ Any
            (λ (d : DriverPosition).
              (has_passed float stops i d ≡ false) × (candidate_of float target d ≡ c))
            drivers)
      × (float.less b.distance_meters c.distance_meters ≡ false)
      × (number c.distance_meters ≡ true)
      × All
          (λ (d : DriverPosition).
            has_passed float stops i d ≡ false
            → float.less (candidate_of float target d).distance_meters c.distance_meters ≡ false)
          drivers

  abbrev Good : Option Candidate → Type 0
  Good none = Unit {0}
  Good (some b) = number b.distance_meters ≡ true

  passed-IsNearest :
      (i : ℕ) (d : DriverPosition) (drivers : List DriverPosition) (r : Option Candidate)
      → has_passed float stops i d ≡ true
      → IsNearest i drivers r
      → IsNearest i (d ∷ drivers) r
  passed-IsNearest i d drivers none p h = (p, h)
  passed-IsNearest i d drivers (some c) p h = (inr h.0, (λ ahead. cc (p, ahead), h.1))

  first-IsNearest :
      (i : ℕ) (d : DriverPosition) (drivers : List DriverPosition) (r : Option Candidate)
      → has_passed float stops i d ≡ false
      → Holds i (some (candidate_of float target d)) drivers r
      → IsNearest i (d ∷ drivers) r
  first-IsNearest i d drivers none a h = absurd h
  first-IsNearest i d drivers (some c) a (inl e, l, n, all) = (inl (a, e), (λ ahead. l, all))
  first-IsNearest i d drivers (some c) a (inr e, l, n, all) = (inr e, (λ ahead. l, all))

  passed-Holds :
      (i : ℕ) (b : Candidate) (d : DriverPosition) (drivers : List DriverPosition)
      (r : Option Candidate)
      → has_passed float stops i d ≡ true
      → Holds i (some b) drivers r
      → Holds i (some b) (d ∷ drivers) r
  passed-Holds i b d drivers none p h = h
  passed-Holds i b d drivers (some c) p (inl e, l, n, all) =
      (inl e, l, n, (λ ahead. cc (p, ahead), all))
  passed-Holds i b d drivers (some c) p (inr e, l, n, all) =
      (inr (inr e), l, n, (λ ahead. cc (p, ahead), all))

  module _ (o : IsOrder number float.less) (i : ℕ) (b : Candidate) (d : DriverPosition)
      (drivers : List DriverPosition) where
    nearer-Holds :
        (r : Option Candidate)
        → has_passed float stops i d ≡ false
        → Measured d
        → number b.distance_meters ≡ true
        → float.less (candidate_of float target d).distance_meters b.distance_meters ≡ true
        → Holds i (some (candidate_of float target d)) drivers r
        → Holds i (some b) (d ∷ drivers) r
    nearer-Holds none a m g e h = h
    nearer-Holds (some c) a m g e h = (
      inr (before h.0),
      o.transitive c.distance_meters (candidate_of float target d).distance_meters b.distance_meters
          h.2 m g h.1
          (o.asymmetric (candidate_of float target d).distance_meters b.distance_meters e),
      h.2,
      (λ ahead. h.1, h.3),
    )
      where
        before :
            (candidate_of float target d ≡ c)
              ⊎ Any
                  (λ (x : DriverPosition).
                    (has_passed float stops i x ≡ false) × (candidate_of float target x ≡ c))
                  drivers
            → Any
                (λ (x : DriverPosition).
                  (has_passed float stops i x ≡ false) × (candidate_of float target x ≡ c))
                (d ∷ drivers)
        before (inl same) = inl (a, same)
        before (inr there) = inr there

    farther-Holds :
        (r : Option Candidate)
        → Measured d
        → number b.distance_meters ≡ true
        → float.less (candidate_of float target d).distance_meters b.distance_meters ≡ false
        → Holds i (some b) drivers r
        → Holds i (some b) (d ∷ drivers) r
    farther-Holds none m g e h = h
    farther-Holds (some c) m g e h = (
      before h.0,
      h.1,
      h.2,
      (
        λ ahead.
            o.transitive c.distance_meters b.distance_meters
              (candidate_of float target d).distance_meters h.2 g m h.1 e,
        h.3,
      ),
    )
      where
        before :
            (b ≡ c)
              ⊎ Any
                  (λ (x : DriverPosition).
                    (has_passed float stops i x ≡ false) × (candidate_of float target x ≡ c))
                  drivers
            → (b ≡ c)
              ⊎ Any
                  (λ (x : DriverPosition).
                    (has_passed float stops i x ≡ false) × (candidate_of float target x ≡ c))
                  (d ∷ drivers)
        before (inl same) = inl same
        before (inr there) = inr (inr there)

  choose-Holds :
      (i : ℕ) (best : Option Candidate) (drivers : List DriverPosition)
      → IsOrder number float.less
      → Good best
      → All Measured drivers
      → Holds i best drivers (choose_driver float stops i target best drivers)
  unfolding choose_driver
  choose-Holds i none [] o g m = tt
  choose-Holds i (some b) [] o g m = (inl refl, o.irreflexive b.distance_meters, g, tt)
  choose-Holds i none (d ∷ drivers) o g m = elim (Bool-cases (has_passed float stops i d)) [
    | inl passed ↦
        rw passed (passed-IsNearest i d drivers _ passed (choose-Holds i none drivers o g m.1))
    | inr ahead ↦ rw ahead (
        first-IsNearest i d drivers _ ahead
          (choose-Holds i (some (candidate_of float target d)) drivers o m.0 m.1))
  ]
  choose-Holds i (some b) (d ∷ drivers) o g m = elim (Bool-cases (has_passed float stops i d)) [
    | inl passed ↦
        rw passed (passed-Holds i b d drivers _ passed (choose-Holds i (some b) drivers o g m.1))
    | inr ahead ↦
        elim (Bool-cases
          (float.less (candidate_of float target d).distance_meters b.distance_meters)) [
            | inl near ↦
                rw (ahead, near)
                  (nearer-Holds o i b d drivers _ ahead m.0 g near
                    (choose-Holds i (some (candidate_of float target d)) drivers o m.0 m.1))
            | inr far ↦
                rw (ahead, far)
                  (farther-Holds o i b d drivers _ m.0 g far
                    (choose-Holds i (some b) drivers o g m.1))
          ]
  ]

  -- What the match answers, by the target's place on the route.
  abbrev pub Matches : List DriverPosition → Option ℕ → Option Candidate → Type 0
  Matches drivers none r = r ≡ none
  Matches drivers (some i) r = IsNearest i drivers r

  -- If `<` orders the floats that are numbers, and every driver's distance to the target is one,
  -- then: for a target that is on the route, the match is a driver that has not passed it, and no
  -- driver that has not is nearer; there is no match only if every driver has passed it, or the
  -- target is not on the route.
  pub find_approaching_driver-Matches :
      (drivers : List DriverPosition)
      → IsOrder number float.less
      → All Measured drivers
      → Matches drivers
          (stop_sequence_index stops target.stop_id)
          (find_approaching_driver float drivers stops target)
  unfolding find_approaching_driver
  find_approaching_driver-Matches drivers o m = go (stop_sequence_index stops target.stop_id)
    where
      go :
          (x : Option ℕ)
          → Matches drivers x
              (elim x [ none ↦ none | some i ↦ choose_driver float stops i target none drivers ])
      go none = refl
      go (some i) = choose-Holds i none drivers o tt m
