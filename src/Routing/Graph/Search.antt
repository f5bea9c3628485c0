-- ===== src/Routing/Graph/Search.antt =====
-- `Search` of backend/internal/routing/graph.go, against the rides that there are.
use sesfikile.Base.{
  ℕ, ◌≡◌, ◌≢◌, refl, Option, none, some, List, ◌⊎◌, inl, inr, Bool-cases, ◌==◌, ==_iff,
}
use sesfikile.Base.Int.{ℤ}
use sesfikile.Base.Dict.{lookup}
use sesfikile.Routing.Models.{RouteWithLegs}
use sesfikile.Routing.Graph.{
  Segment, SearchResult, route_stop_order, direct_segment, segment_cost, result_cost, direct_result,
  try_second, try_seconds, try_first, best_direct, best_transfer, search,
}
use sesfikile.Routing.Best.{Any, IsBest, IsBest-iff, offer-IsBest, for_each-IsBest}
use sesfikile.Routing.Graph.Interchange.{Changes, Any-some, unstarted, try_second-IsBest}

abbrev pub Direct : List RouteWithLegs → (origin dest : ℕ) → Segment → Type 0
Direct routes origin dest s = Any (λ r. direct_segment r origin dest ≡ some s) routes

abbrev pub Transfer : List RouteWithLegs → (origin dest : ℕ) → SearchResult → Type 0
Transfer routes origin dest c = Any (λ r1. Any (λ r2. Changes r1 r2 origin dest c) routes) routes

module _ (routes : List RouteWithLegs) (origin dest : ℕ) where
  Onward : RouteWithLegs → SearchResult → Type 0
  Onward r1 c = Any (λ (r2 : RouteWithLegs). Changes r1 r2 origin dest c) routes

  try_first-IsBest :
      (r1 : RouteWithLegs) (o : Option ℕ) (P : SearchResult → Type 0) (best : Option SearchResult)
      → lookup origin (route_stop_order r1.legs).1 ≡ o
      → IsBest result_cost P best
      → IsBest result_cost (λ c. P c ⊎ Onward r1 c) (try_seconds routes r1 origin dest o best)
  unfolding Onward
  try_first-IsBest r1 none P best o h =
      IsBest-iff result_cost P _ best (λ c p. inl p) (λ c. only c) h
    where
      only :
          (c : SearchResult)
          → P c ⊎ Any (λ (r2 : RouteWithLegs). Changes r1 r2 origin dest c) routes
          → P c
      only c (inl p) = p
      only c (inr a) =
          let (r2, m) = Any-some _ routes a in
          absurd (cc (m.first_ride, unstarted r1 r2 origin dest m.interchange c o))
  try_first-IsBest r1 (some origin_pos) P best o h =
      for_each-IsBest result_cost (λ r2 c. Changes r1 r2 origin dest c)
        (try_second r1 origin dest origin_pos)
        (λ r2 P b k. try_second-IsBest r1 r2 origin dest origin_pos P b o k) routes P best h

  drop_none :
      {C : Type 0} (cost : C → ℤ) (Q : C → Type 0) (best : Option C)
      → IsBest cost (λ c. ⊥ ⊎ Q c) best
      → IsBest cost Q best
  drop_none cost Q best h = IsBest-iff cost _ Q best to (λ c q. inr q) h
    where
      to : (c : _) → ⊥ ⊎ Q c → Q c
      to c (inl e) = absurd e
      to c (inr q) = q

  best_direct-IsBest :
      IsBest segment_cost (Direct routes origin dest) (best_direct routes origin dest)
  unfolding best_direct
  best_direct-IsBest = drop_none segment_cost _ _ (
      for_each-IsBest segment_cost (λ r c. direct_segment r origin dest ≡ some c) _
        (λ r P b h. offer-IsBest segment_cost P (direct_segment r origin dest) b h) routes (λ c. ⊥)
        none (λ c e. e))

  best_transfer-IsBest :
      IsBest result_cost (Transfer routes origin dest) (best_transfer routes origin dest)
  unfolding best_transfer try_first Onward
  best_transfer-IsBest = drop_none result_cost _ _ (
      for_each-IsBest result_cost Onward (try_first routes origin dest)
        (λ r P b h. try_first-IsBest r (lookup origin (route_stop_order r.legs).1) P b refl h)
        routes (λ c. ⊥) none (λ c e. e))

  -- What a search may answer.
  abbrev pub SearchAnswer : Option SearchResult → Type 0
  SearchAnswer answer =
      (origin ≡ dest) × (answer ≡ none)
      ⊎ (origin ≢ dest)
        × ((s : Segment) × (answer ≡ some (direct_result s))
            × IsBest segment_cost (Direct routes origin dest) (some s))
      ⊎ (origin ≢ dest)
        × ((s : Segment) → Direct routes origin dest s → ⊥)
        × IsBest result_cost (Transfer routes origin dest) answer

  -- A search from a stop to itself finds nothing. Otherwise, if some route has a direct segment, the
  -- search returns one with the lowest fare. If none has, it returns the cheapest of the rides
  -- that change once, at any stop between any two different routes, and finds nothing only if
  -- there is no such ride.
  pub search-Answer : SearchAnswer (search routes origin dest)
  unfolding search
  search-Answer = elim (Bool-cases (origin == dest)) [
    | inl same ↦ rw same (inl ((==_iff origin dest).0 same, refl))
    | inr other ↦ rw other (
        answer (best_direct routes origin dest) (λ same. cc (other, (==_iff origin dest).1 same))
          best_direct-IsBest)
  ]
    where
      answer :
          (b : Option Segment)
          → origin ≢ dest
          → IsBest segment_cost (Direct routes origin dest) b
          → SearchAnswer
              (elim b [ none ↦ best_transfer routes origin dest | some s ↦ some (direct_result s) ])
      answer none ne h = inr (inr (ne, h, best_transfer-IsBest))
      answer (some s) ne h = inr (inl (ne, (s, refl, h)))
