-- ===== src/Routing/Graph/Interchange.antt =====
-- The changes between two routes that the loops of backend/internal/routing/graph.go try, against
-- those that could be ridden.
use sesfikile.Base.{
  ℕ, zero, suc, true, false, ◌≡◌, ◌≢◌, refl, sym, ap, ◌∙◌, subst, Option, none, some, List, [], ◌∷◌,
  get_elem?, ◌⊎◌, inl, inr, Bool-cases, ◌==◌, ==_iff,
}
use sesfikile.Base.Dict.{lookup}
use sesfikile.Routing.Models.{RouteWithLegs}
use sesfikile.Routing.Graph.{
  Segment, SearchResult, stops_of, route_stop_order, ride_between, direct_segment, result_cost,
  transfer_result, not_behind, not_before, join, via, try_stops, try_second,
}
use sesfikile.Routing.Graph.Positions.{position-stops}
use sesfikile.Routing.Best.{Any, IsBest, IsBest-iff, offer-IsBest, for_each-IsBest}

-- A ride from `origin` on `r1` to some stop and on from there on `r2`, another route.
pub record Changes (r1 r2 : RouteWithLegs) (origin dest : ℕ) (c : SearchResult) : Type 0 where
  pub other_route : r2.route.id ≢ r1.route.id
  pub interchange : ℕ
  pub first : Segment
  pub second : Segment
  pub first_ride : direct_segment r1 origin interchange ≡ some first
  pub second_ride : direct_segment r2 interchange dest ≡ some second
  pub result : c ≡ transfer_result first second

Any-at :
    {A : Type 0} (P : A → Type 0) (xs : List A) (k : ℕ) (x : A)
    → get_elem? xs k ≡ some x
    → P x
    → Any P xs
Any-at P [] k x e p = cc
Any-at {A} P (y ∷ xs) zero x e p = inl (subst P (ap value (sym e)) p)
  where
    value : Option A → A
    value none = y
    value (some z) = z
Any-at P (y ∷ xs) (suc k) x e p = inr (Any-at P xs k x e p)

pub Any-some : {A : Type 0} (P : A → Type 0) (xs : List A) → Any P xs → (x : A) × P x
Any-some P [] p = absurd p
Any-some P (x ∷ xs) (inl p) = (x, p)
Any-some P (x ∷ xs) (inr p) = Any-some P xs p

-- What the guards of the loops skip has no ride.
behind_no_ride :
    (r : RouteWithLegs) (at : ℕ) (to : Option ℕ)
    → not_behind to at ≡ true
    → ride_between r (some at) to ≡ none
behind_no_ride r at none h = refl
behind_no_ride r at (some p) h = rw h

before_no_ride :
    (r : RouteWithLegs) (at : ℕ) (from : Option ℕ)
    → not_before from at ≡ true
    → ride_between r from (some at) ≡ none
before_no_ride r at none h = refl
before_no_ride r at (some p) h = rw h

join-none : (s : Option Segment) → join s none ≡ none
join-none none = refl
join-none (some s) = refl

module _ (r1 r2 : RouteWithLegs) (origin dest : ℕ) where
  via-join :
      (origin_pos dest_pos i : ℕ)
      → lookup origin (route_stop_order r1.legs).1 ≡ some origin_pos
      → lookup dest (route_stop_order r2.legs).1 ≡ some dest_pos
      → via r1 r2 origin dest origin_pos dest_pos i
        ≡ join (direct_segment r1 origin i) (direct_segment r2 i dest)
  unfolding via direct_segment
  via-join origin_pos dest_pos i o d =
      elim (Bool-cases (not_behind (lookup i (route_stop_order r1.legs).1) origin_pos)) [
        | inl skip ↦ rw (skip, o, behind_no_ride r1 origin_pos _ skip) refl
        | inr on ↦ elim (Bool-cases (not_before (lookup i (route_stop_order r2.legs).1) dest_pos)) [
          | inl skip ↦ rw (on, skip, d, before_no_ride r2 dest_pos _ skip, join-none) refl
          | inr go ↦ rw (on, go) refl
        ]
      ]

  -- The interchanges of one pair of routes.
  abbrev Meets : SearchResult → Type 0
  Meets c = (i : ℕ) × (join (direct_segment r1 origin i) (direct_segment r2 i dest) ≡ some c)

  -- A stop with a ride to it is one of the route's stops.
  Meets-stop :
      (i : ℕ) (c : SearchResult) (p : Option ℕ)
      → lookup i (route_stop_order r1.legs).1 ≡ p
      → join (direct_segment r1 origin i) (direct_segment r2 i dest) ≡ some c
      → (k : ℕ) × (get_elem? (stops_of r1.legs) k ≡ some i)
  unfolding direct_segment
  Meets-stop i c none e m =
      absurd (nowhere (lookup origin (route_stop_order r1.legs).1) (rw e at m))
    where
      nowhere :
          (o : Option ℕ) → join (ride_between r1 o none) (direct_segment r2 i dest) ≡ some c → ⊥
      nowhere none h = cc
      nowhere (some a) h = cc
  Meets-stop i c (some k) e m = (k, position-stops r1.legs i k e)

  unreachable :
      (i : ℕ) (c : SearchResult)
      → lookup dest (route_stop_order r2.legs).1 ≡ none
      → join (direct_segment r1 origin i) (direct_segment r2 i dest) ≡ some c
      → ⊥
  unfolding direct_segment
  unreachable i c e m =
      off
        (ride_between r1 (lookup origin (route_stop_order r1.legs).1)
          (lookup i (route_stop_order r1.legs).1))
        (lookup i (route_stop_order r2.legs).1) (rw e at m)
    where
      off : (s : Option Segment) (f : Option ℕ) → join s (ride_between r2 f none) ≡ some c → ⊥
      off none f m = cc
      off (some s) none m = cc
      off (some s) (some f) m = cc

  pub unstarted :
      (i : ℕ) (c : SearchResult)
      → lookup origin (route_stop_order r1.legs).1 ≡ none
      → direct_segment r1 origin i ≡ none
  unfolding direct_segment
  unstarted i c o = rw o refl

  try_stops-IsBest :
      (origin_pos : ℕ) (d : Option ℕ) (P : SearchResult → Type 0) (best : Option SearchResult)
      → lookup origin (route_stop_order r1.legs).1 ≡ some origin_pos
      → lookup dest (route_stop_order r2.legs).1 ≡ d
      → IsBest result_cost P best
      → IsBest result_cost (λ c. P c ⊎ Meets c) (try_stops r1 r2 origin dest origin_pos d best)
  unfolding route_stop_order
  try_stops-IsBest origin_pos none P best o e h =
      IsBest-iff result_cost P _ best (λ c p. inl p) (λ c. only c) h
    where
      only : (c : SearchResult) → P c ⊎ Meets c → P c
      only c (inl p) = p
      only c (inr (i, m)) = absurd (unreachable i c e m)
  try_stops-IsBest origin_pos (some dest_pos) P best o e h = IsBest-iff result_cost _ _ _ to from (
      for_each-IsBest result_cost (λ i c. via r1 r2 origin dest origin_pos dest_pos i ≡ some c) _
        (λ i P b k. offer-IsBest result_cost P (via r1 r2 origin dest origin_pos dest_pos i) b k)
        (stops_of r1.legs) P best h)
    where
      Found : SearchResult → Type 0
      Found c =
          Any (λ (i : ℕ). via r1 r2 origin dest origin_pos dest_pos i ≡ some c) (stops_of r1.legs)

      to : (c : SearchResult) → P c ⊎ Found c → P c ⊎ Meets c
      to c (inl p) = inl p
      to c (inr a) =
          let (i, m) = Any-some _ (stops_of r1.legs) a in
          inr (i, sym (via-join origin_pos dest_pos i o e) ∙ m)

      from : (c : SearchResult) → P c ⊎ Meets c → P c ⊎ Found c
      from c (inl p) = inl p
      from c (inr (i, m)) =
          let (k, at) = Meets-stop i c _ refl m in
          inr (Any-at _ (stops_of r1.legs) k i at (via-join origin_pos dest_pos i o e ∙ m))

  Meets-Changes :
      (c : SearchResult)
      → (r2.route.id == r1.route.id) ≡ false
      → Meets c
      → Changes r1 r2 origin dest c
  Meets-Changes c other (i, m) =
      build (direct_segment r1 origin i) (direct_segment r2 i dest) refl refl m
    where
      build :
          (s t : Option Segment)
          → direct_segment r1 origin i ≡ s
          → direct_segment r2 i dest ≡ t
          → join s t ≡ some c
          → Changes r1 r2 origin dest c
      build none t a b h = cc
      build (some s) none a b h = cc
      build (some s) (some t) a b h = record {
        other_route = λ same. cc (other, (==_iff r2.route.id r1.route.id).1 same);
        interchange = i;
        first = s;
        second = t;
        first_ride = a;
        second_ride = b;
        result = sym (ap result_of h);
      }
        where
          result_of : Option SearchResult → SearchResult
          result_of none = c
          result_of (some x) = x

  Changes-Meets : (c : SearchResult) → Changes r1 r2 origin dest c → Meets c
  Changes-Meets c m = (m.interchange, rw (m.first_ride, m.second_ride) (ap some (sym m.result)))

  pub try_second-IsBest :
      (origin_pos : ℕ) (P : SearchResult → Type 0) (best : Option SearchResult)
      → lookup origin (route_stop_order r1.legs).1 ≡ some origin_pos
      → IsBest result_cost P best
      → IsBest result_cost
          (λ c. P c ⊎ Changes r1 r2 origin dest c)
          (try_second r1 origin dest origin_pos r2 best)
  unfolding try_second
  try_second-IsBest origin_pos P best o h = elim (Bool-cases (r2.route.id == r1.route.id)) [
    | inl same ↦ rw same (IsBest-iff result_cost P _ best (λ c p. inl p) (λ c. only same c) h)
    | inr other ↦ rw other (
        IsBest-iff result_cost _ _ _ (λ c. to other c) (λ c. from c)
          (try_stops-IsBest origin_pos (lookup dest (route_stop_order r2.legs).1) P best o refl h))
  ]
    where
      only :
          (r2.route.id == r1.route.id) ≡ true
          → (c : SearchResult) → P c ⊎ Changes r1 r2 origin dest c
          → P c
      only same c (inl p) = p
      only same c (inr m) = absurd (m.other_route ((==_iff r2.route.id r1.route.id).0 same))

      to :
          (r2.route.id == r1.route.id) ≡ false
          → (c : SearchResult) → P c ⊎ Meets c
          → P c ⊎ Changes r1 r2 origin dest c
      to other c (inl p) = inl p
      to other c (inr m) = inr (Meets-Changes c other m)

      from : (c : SearchResult) → P c ⊎ Changes r1 r2 origin dest c → P c ⊎ Meets c
      from c (inl p) = inl p
      from c (inr m) = inr (Changes-Meets c m)
