-- ===== src/Routing/Graph/Positions.antt =====
-- Where a stop stands on a route (backend/internal/routing/graph.go).
use sesfikile.Base.{
  ℕ, suc, ◌+◌, ◌≡◌, ap, Option, none, some, List, [], ◌∷◌, get_elem?, ◌⊎◌, inl, inr, Bool-cases,
  arith, ◌==◌, ==_iff,
}
use sesfikile.Base.Dict.{Dict, lookup, insert, lookup-insert}
use sesfikile.Routing.Models.{RouteLeg}
use sesfikile.Routing.Graph.{stops_of, index_from, route_stop_order}

some-eq : (i j : ℕ) → some i ≡ some j → i ≡ j
some-eq i j e = ap (value i) e
  where
    value : ℕ → Option ℕ → ℕ
    value y none = y
    value y (some z) = z

-- The `k`-th of the stops has the position `p`, counted from `i`.
Stands : ℕ → List ℕ → ℕ → ℕ → Type 0
Stands i stops s p = (k : ℕ) × (p ≡ i + k) × (get_elem? stops k ≡ some s)

index_from-lookup :
    (i : ℕ) (stops : List ℕ) (m : Dict ℕ) (s p : ℕ)
    → lookup s (index_from i stops m) ≡ some p
    → (lookup s m ≡ some p) ⊎ Stands i stops s p
unfolding index_from Stands
index_from-lookup i [] m s p e = inl e
index_from-lookup i (x ∷ stops) m s p e =
    elim (index_from-lookup (suc i) stops (insert x i m) s p e) [
      | inl old ↦ elim (Bool-cases (x == s)) [
        | inl same ↦ inr (
          0,
          omega (arith, some-eq i p (rw (lookup-insert, same) at old)),
          ap some ((==_iff x s).0 same),
        )
        | inr other ↦ inl (rw (lookup-insert, other) at old)
      ]
      | inr (k, at, here) ↦ inr (suc k, omega (arith, at), here)
    ]

-- The position that `route_stop_order` gives a stop is one where the stop stands.
pub position-stops :
    (legs : List RouteLeg) (s p : ℕ)
    → lookup s (route_stop_order legs).1 ≡ some p
    → get_elem? (stops_of legs) p ≡ some s
unfolding route_stop_order Stands lookup
position-stops legs s p e = elim (index_from-lookup 0 (stops_of legs) [] s p e) [
  | inl old ↦ absurd (empty s p old)
  | inr (k, at, here) ↦ let same : p ≡ k = omega (arith, at) in rw same here
]
  where
    empty : (s p : ℕ) → lookup s [] ≡ some p → ⊥
    empty s p old = cc
