-- ===== src/Routing/Clearing/Baseline.antt =====
-- What DeleteCatalogueData is to leave, and what its four statements leave in their order.
use sesfikile.Base.{
  ℕ, Bool, true, false, not, List, [], ◌∷◌, any, filter, ◌≡◌, refl, inl, inr, ◌==◌, ◌&&◌, arith,
  All, All-mono, Bool-cases,
}
use sesfikile.Boarding.Models.{IssuedPass}
use sesfikile.Routing.Models.{Route, RouteLeg, RouteGeometry}
use sesfikile.Routing.Clearing.{is_catalogue_route, of_catalogue, is_unused, is_referenced}
use sesfikile.Database.Schema.{Db}

abbrev pub without_geometries : Db → Db
without_geometries d = record d {
  route_geometries =
      filter (λ (g : RouteGeometry). not (of_catalogue d.routes g.route_id)) d.route_geometries;
}

abbrev pub without_legs : Db → Db
without_legs d = record d {
  route_legs = filter (λ (l : RouteLeg). not (of_catalogue d.routes l.route_id)) d.route_legs;
}

abbrev pub without_routes : Db → Db
without_routes d = record d { routes = filter (λ rt. not (is_catalogue_route rt)) d.routes }

abbrev pub without_stops : Db → Db
without_stops d = record d { stops = filter (λ s. not (is_unused d.route_legs s)) d.stops }

-- The tables without the catalogue: its routes, their legs and polylines, and the catalogue's
-- stops that no leg uses any more. Every other row is kept, in its order.
abbrev pub baseline : Db → Db
baseline d = without_stops (without_routes (without_legs (without_geometries d)))

-- An issued boarding pass is for a route of the catalogue.
abbrev pub has_catalogue_pass : Db → Bool
has_catalogue_pass d =
    any
      (λ rt.
        is_catalogue_route rt
        && any (λ (p : IssuedPass). p.route_id == rt.id) d.boarding_pass_codes)
      d.routes

-- Once the rows whose key is chosen are gone, none of the rest has a chosen key.
any-filter_gone {ℓ} :
    {A : Type ℓ} (chosen : ℕ → Bool) (key : A → ℕ) (xs : List A) (k : ℕ)
    → chosen k ≡ true
    → any (λ x. key x == k) (filter (λ x. not (chosen (key x))) xs) ≡ false
any-filter_gone chosen key [] k h = refl
any-filter_gone chosen key (x ∷ xs) k h = ground (arith, any-filter_gone chosen key xs k h)

abbrev pub IsListed : List Route → Route → Type 0
IsListed routes rt = is_catalogue_route rt ≡ true → of_catalogue routes rt.id ≡ true

IsListed-head : (rt : Route) (rest : List Route) → IsListed (rt ∷ rest) rt
IsListed-head rt rest h = ground arith

IsListed-tail :
    (rt : Route) (rest : List Route) (x : Route) → IsListed rest x → IsListed (rt ∷ rest) x
IsListed-tail rt rest x f h = ground (arith, f h)

pub IsListed-All : (routes : List Route) → All (IsListed routes) routes
IsListed-All [] = tt
IsListed-All (rt ∷ rest) = (
  IsListed-head rt rest,
  All-mono (IsListed rest) (IsListed (rt ∷ rest)) rest (IsListed-tail rt rest) (IsListed-All rest),
)

-- After the first two statements only a pass can hold a route of the catalogue.
pub held_by_pass :
    (d : Db) (rts : List Route)
    → All (IsListed d.routes) rts
    → any
        (λ rt. is_catalogue_route rt && is_referenced (without_legs (without_geometries d)) rt)
        rts
      ≡ any
          (λ rt.
            is_catalogue_route rt
            && any (λ (p : IssuedPass). p.route_id == rt.id) d.boarding_pass_codes)
          rts
held_by_pass d [] h = refl
held_by_pass d (rt ∷ rest) h = elim (Bool-cases (is_catalogue_route rt)) [
  | inl c ↦
      rw
        (
          c,
          any-filter_gone (of_catalogue d.routes) (λ (l : RouteLeg). l.route_id) d.route_legs rt.id
              (h.0 c),
          any-filter_gone (of_catalogue d.routes) (λ (g : RouteGeometry). g.route_id)
              d.route_geometries rt.id (h.0 c),
          held_by_pass d rest h.1,
        )
        refl
  | inr c ↦ rw (c, held_by_pass d rest h.1) refl
]
