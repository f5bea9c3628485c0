-- ===== src/Routing/Graph/Rides.antt =====
-- What a ride of backend/internal/routing/graph.go is: consecutive legs of one route that lead
-- from the origin to the destination.
use sesfikile.Base.{
  ℕ, zero, suc, ◌+◌, ◌-◌, ◌^◌, ◌≤◌, ◌<◌, ◌≡◌, refl, sym, ap, ◌∙◌, subst, Option, none, some, List,
  [], ◌∷◌, ◌++◌, map, length, take, drop, get_elem?, All, leb, ◌⊎◌, inl, inr, Bool-cases, arith,
}
use sesfikile.Base.Int.{ℤ, pos, ◌+ℤ◌, ◌≤ℤ◌, negsuc, pos_part, neg_part, int_laws}
use sesfikile.Base.Word.{i64-fits}
use sesfikile.Base.Dict.{lookup}
use sesfikile.Routing.Models.{RouteLeg, RouteWithLegs}
use sesfikile.Routing.Graph.{
  Segment, stops_of, route_stop_order, add_fares, ride, ride_between, direct_segment, bare_route,
  fare_for_segment,
}
use sesfikile.Routing.Graph.Positions.{position-stops}

-- The legs lead from one stop to another, each from where the one before ends.
abbrev pub Walk : ℕ → List RouteLeg → ℕ → Type 0
Walk a [] b = a ≡ b
Walk a (l ∷ legs) b = (l.from_stop_id ≡ a) × Walk l.to_stop_id legs b

abbrev pub Linked : ℕ → List RouteLeg → Type 0
Linked a [] = Unit {0}
Linked a (l ∷ legs) = (l.from_stop_id ≡ a) × Linked l.to_stop_id legs

-- Each leg of the route starts where the one before ends.
abbrev pub IsConnected : List RouteLeg → Type 0
IsConnected [] = Unit {0}
IsConnected (l ∷ legs) = Linked l.to_stop_id legs

abbrev pub total_fares : List RouteLeg → ℤ
total_fares [] = pos 0
total_fares (l ∷ legs) = l.fare_cents +ℤ total_fares legs

-- No fare is negative, and all of the route's fares together fit an int64.
abbrev pub IsPriced : List RouteLeg → Type 0
IsPriced legs =
    All (λ (l : RouteLeg). pos 0 ≤ℤ l.fare_cents) legs × (total_fares legs ≤ℤ pos (2 ^ 63 - 1))

abbrev stops_from : ℕ → List RouteLeg → List ℕ
stops_from a legs = a ∷ map (λ (x : RouteLeg). x.to_stop_id) legs

some-eq : (i j : ℕ) → some i ≡ some j → i ≡ j
some-eq i j e = ap (value i) e
  where
    value : ℕ → Option ℕ → ℕ
    value y none = y
    value y (some z) = z

take-Walk :
    (a : ℕ) (legs : List RouteLeg) (j d : ℕ)
    → Linked a legs
    → get_elem? (stops_from a legs) j ≡ some d
    → Walk a (take j legs) d
take-Walk a legs zero d h e = some-eq a d e
take-Walk a [] (suc j) d h e = cc
take-Walk a (l ∷ legs) (suc j) d h e = (h.0, take-Walk l.to_stop_id legs j d h.1 e)

slice-Walk :
    (a : ℕ) (legs : List RouteLeg) (i j n s d : ℕ)
    → Linked a legs
    → j ≡ i + n
    → get_elem? (stops_from a legs) i ≡ some s
    → get_elem? (stops_from a legs) j ≡ some d
    → Walk s (take n (drop i legs)) d
slice-Walk a legs zero j n s d h at e f =
    let same : j ≡ n = omega (arith, at) in
    subst (λ (x : ℕ). Walk x (take n legs) d) (some-eq a s e)
      (take-Walk a legs n d h (rw same at f))
slice-Walk a [] (suc i) j n s d h at e f = cc
slice-Walk a (l ∷ legs) (suc i) zero n s d h at e f = absurd (omega (arith, at))
slice-Walk a (l ∷ legs) (suc i) (suc j) n s d h at e f =
    slice-Walk l.to_stop_id legs i j n s d h.1 (omega (arith, at)) e f

route-Walk :
    (legs : List RouteLeg) (i j s d : ℕ)
    → IsConnected legs
    → i ≤ j
    → get_elem? (stops_of legs) i ≡ some s
    → get_elem? (stops_of legs) j ≡ some d
    → Walk s (take (j - i) (drop i legs)) d
unfolding stops_of
route-Walk [] i j s d h le e f = cc
route-Walk (l ∷ legs) i j s d h le e f =
    slice-Walk l.from_stop_id (l ∷ legs) i j (j - i) s d (refl, h) (omega (arith, le)) e f

within :
    (a : ℕ) (legs : List RouteLeg) (j d : ℕ)
    → get_elem? (stops_from a legs) j ≡ some d
    → j ≤ length legs
within a legs zero d e = omega arith
within a [] (suc j) d e = cc
within a (l ∷ legs) (suc j) d e = omega (arith, within l.to_stop_id legs j d e)

route-within :
    (legs : List RouteLeg) (j d : ℕ) → get_elem? (stops_of legs) j ≡ some d → j ≤ length legs
unfolding stops_of
route-within [] j d e = cc
route-within (l ∷ legs) j d e = within l.from_stop_id (l ∷ legs) j d e

length-take : (n : ℕ) (legs : List RouteLeg) → n ≤ length legs → length (take n legs) ≡ n
length-take zero legs h = refl
length-take (suc n) [] h = absurd (omega (arith, h))
length-take (suc n) (l ∷ legs) h = omega (arith, length-take n legs (omega (arith, h)))

length-slice :
    (legs : List RouteLeg) (i n : ℕ) → i + n ≤ length legs → length (take n (drop i legs)) ≡ n
length-slice legs zero n h = length-take n legs (omega (arith, h))
length-slice [] (suc i) n h = absurd (omega (arith, h))
length-slice (l ∷ legs) (suc i) n h = length-slice legs i n (omega (arith, h))

take-drop : (n : ℕ) (legs : List RouteLeg) → legs ≡ take n legs ++ drop n legs
take-drop zero legs = refl
take-drop (suc n) [] = refl
take-drop (suc n) (l ∷ legs) = ap (λ (x : List RouteLeg). l ∷ x) (take-drop n legs)

-- The fares of a part of a route.
take-IsPriced : (n : ℕ) (legs : List RouteLeg) → IsPriced legs → IsPriced (take n legs)
take-IsPriced n legs h = (all n legs h.0, omega (arith, part n legs h.0, h.1))
  where
    all :
        (n : ℕ) (xs : List RouteLeg)
        → All (λ (l : RouteLeg). pos 0 ≤ℤ l.fare_cents) xs
        → All (λ (l : RouteLeg). pos 0 ≤ℤ l.fare_cents) (take n xs)
    all zero xs a = tt
    all (suc n) [] a = tt
    all (suc n) (x ∷ xs) a = (a.0, all n xs a.1)

    part :
        (n : ℕ) (xs : List RouteLeg)
        → All (λ (l : RouteLeg). pos 0 ≤ℤ l.fare_cents) xs
        → (pos 0 ≤ℤ total_fares (take n xs)) × (total_fares (take n xs) ≤ℤ total_fares xs)
    part zero [] a = (omega arith, omega arith)
    part zero (x ∷ xs) a = (omega arith, omega (int_laws, a.0, part zero xs a.1))
    part (suc n) [] a = (omega arith, omega arith)
    part (suc n) (x ∷ xs) a =
        (omega (int_laws, a.0, part n xs a.1), omega (int_laws, a.0, part n xs a.1))

drop-IsPriced : (n : ℕ) (legs : List RouteLeg) → IsPriced legs → IsPriced (drop n legs)
drop-IsPriced zero legs h = h
drop-IsPriced (suc n) [] h = h
drop-IsPriced (suc n) (l ∷ legs) h = drop-IsPriced n legs (h.0.1, omega (int_laws, h.0.0, h.1))

total_nonneg :
    (legs : List RouteLeg)
    → All (λ (l : RouteLeg). pos 0 ≤ℤ l.fare_cents) legs
    → pos 0 ≤ℤ total_fares legs
total_nonneg [] h = omega arith
total_nonneg (l ∷ legs) h = omega (int_laws, h.0, total_nonneg legs h.1)

normal : (z : ℤ) → (pos_part z ≡ 0) ⊎ (neg_part z ≡ 0)
normal (pos n) = inr refl
normal (negsuc n) = inl refl

add_fares-total :
    (fare : ℤ) (legs : List RouteLeg)
    → pos 0 ≤ℤ fare
    → All (λ (l : RouteLeg). pos 0 ≤ℤ l.fare_cents) legs
    → fare +ℤ total_fares legs ≤ℤ pos (2 ^ 63 - 1)
    → add_fares fare legs ≡ fare +ℤ total_fares legs
unfolding add_fares
add_fares-total fare [] f h r = omega int_laws
add_fares-total fare (l ∷ legs) f h r =
    let nonneg = total_nonneg legs h.1 in
    rw
      (i64-fits (fare +ℤ l.fare_cents)
        (omega (int_laws, h.0, f, r, nonneg, normal (fare +ℤ l.fare_cents))))
      (add_fares-total (fare +ℤ l.fare_cents) legs (omega (int_laws, h.0, f)) h.1
          (omega (int_laws, r))
        ∙ omega int_laws)

-- A ride on the route: legs of it in a row, at least one, from the origin to the destination, and
-- their fares added up.
pub record IsRide (r : RouteWithLegs) (origin dest : ℕ) (seg : Segment) : Type 0 where
  pub of_route : seg.route_id ≡ r.route.id
  pub before : List RouteLeg
  pub after : List RouteLeg
  pub consecutive : r.legs ≡ before ++ (seg.legs ++ after)
  pub some_leg : 1 ≤ length seg.legs
  pub walk : Walk origin seg.legs dest
  pub fare : seg.fare_cents ≡ total_fares seg.legs

ride-IsRide :
    (r : RouteWithLegs) (i j origin dest : ℕ)
    → IsConnected r.legs
    → IsPriced r.legs
    → i < j
    → get_elem? (stops_of r.legs) i ≡ some origin
    → get_elem? (stops_of r.legs) j ≡ some dest
    → IsRide r origin dest (ride r i j)
ride-IsRide r i j origin dest c p lt e f =
    let priced = take-IsPriced (j - i) (drop i r.legs) (drop-IsPriced i r.legs p) in
    let inside = route-within r.legs j dest f in
    record {
      of_route = refl;
      before = take i r.legs;
      after = drop (j - i) (drop i r.legs);
      consecutive =
          take-drop i r.legs
          ∙ ap (λ (x : List RouteLeg). take i r.legs ++ x) (take-drop (j - i) (drop i r.legs));
      some_leg = omega (arith, length-slice r.legs i (j - i) (omega arith));
      walk = route-Walk r.legs i j origin dest c (omega arith) e f;
      fare =
          add_fares-total (pos 0) (take (j - i) (drop i r.legs)) (omega arith) priced.0
            (omega (int_laws, priced.1))
          ∙ omega int_laws;
    }

between :
    (r : RouteWithLegs) (origin dest : ℕ) (seg : Segment) (o d : Option ℕ)
    → IsConnected r.legs
    → IsPriced r.legs
    → lookup origin (route_stop_order r.legs).1 ≡ o
    → lookup dest (route_stop_order r.legs).1 ≡ d
    → ride_between r o d ≡ some seg
    → IsRide r origin dest seg
between r origin dest seg none d c p e f g = cc
between r origin dest seg (some i) none c p e f g = cc
between r origin dest seg (some i) (some j) c p e f g = elim (Bool-cases (leb j i)) [
  | inl stop ↦ cc (rw stop at g)
  | inr go ↦
      subst (λ (x : Segment). IsRide r origin dest x) (value seg (ride r i j) (rw go at g))
        (ride-IsRide r i j origin dest c p (ground arith) (position-stops r.legs origin i e)
          (position-stops r.legs dest j f))
]
  where
    segment_or : Segment → Option Segment → Segment
    segment_or x none = x
    segment_or x (some y) = y

    value : (x y : Segment) → some y ≡ some x → y ≡ x
    value x y h = ap (segment_or y) h

-- On a connected route whose fares are not negative and fit an int64 together, a direct segment
-- is a ride: at least one leg, legs of the route in a row, which lead from the origin to the
-- destination, priced at the sum of their fares.
pub direct_segment-IsRide :
    (r : RouteWithLegs) (origin dest : ℕ) (seg : Segment)
    → IsConnected r.legs
    → IsPriced r.legs
    → direct_segment r origin dest ≡ some seg
    → IsRide r origin dest seg
unfolding direct_segment
direct_segment-IsRide r origin dest seg c p e =
    between r origin dest seg (lookup origin (route_stop_order r.legs).1)
      (lookup dest (route_stop_order r.legs).1) c p refl refl e

-- On connected legs whose fares are not negative and fit an int64 together, a fare that
-- `fare_for_segment` gives is the price of such a ride.
pub fare_for_segment-IsRide :
    (legs : List RouteLeg) (origin dest : ℕ) (fare : ℤ)
    → IsConnected legs
    → IsPriced legs
    → fare_for_segment legs origin dest ≡ some fare
    → (seg : Segment) × IsRide (bare_route legs) origin dest seg × (fare ≡ total_fares seg.legs)
unfolding fare_for_segment
fare_for_segment-IsRide legs origin dest fare c p e =
    go (direct_segment (bare_route legs) origin dest) refl e
  where
    fare_or : ℤ → Option ℤ → ℤ
    fare_or x none = x
    fare_or x (some y) = y

    go :
        (o : Option Segment)
        → direct_segment (bare_route legs) origin dest ≡ o
        → elim o [ none ↦ none | some seg ↦ some seg.fare_cents ] ≡ some fare
        → (seg : Segment) × IsRide (bare_route legs) origin dest seg × (fare ≡ total_fares seg.legs)
    go none d h = cc
    go (some seg) d h =
        let r = direct_segment-IsRide (bare_route legs) origin dest seg c p d in
        (seg, r, sym (ap (fare_or fare) h) ∙ r.fare)
