-- ===== src/Routing/Repo/Order.antt =====
-- `ORDER BY` in the reads of the routing tables.
use mathlib.Core.List.{Perm}
use sesfikile.Base.{
  ℕ, true, false, List, [], ◌∷◌, map, filter, ◌==◌, ◌≡◌, refl, ap, ◌∙◌, sym, arith, All,
}
use sesfikile.Base.Text.{Text}
use sesfikile.Base.Sort.{order_by, IsOrdered, order_by-perm, order_by-IsOrdered}
use sesfikile.Routing.Models.{Route, RouteLeg, RouteWithLegs}
use sesfikile.Routing.Repo.{
  by_sequence, legs_of, route_by_name, list_routes, list_legs_for_route, load_legs,
  all_routes_with_legs,
}
use sesfikile.Database.Schema.{Db}
use sesfikile.Database.Session.{Env, Session, Error, database, on_pool}
use sesfikile.Database.Ensures.{
  Ensures, Ensures-pure, Ensures-bind, Ensures-mono, Ensures-query, Aborts, Faulty,
}

abbrev route_legs_of : ℕ → Db → List RouteLeg
route_legs_of route d = filter (λ (l : RouteLeg). l.route_id == route) d.route_legs

-- A loaded route has all of its legs and no other, in the order of their sequence numbers.
abbrev pub IsLoaded : Db → RouteWithLegs → Type 0
IsLoaded d r = IsOrdered by_sequence r.legs × Perm r.legs (route_legs_of r.route.id d)

by_sequence_trans :
    (a b c : RouteLeg) → by_sequence a b ≡ true → by_sequence b c ≡ true → by_sequence a c ≡ true
by_sequence_trans a b c p q = ground arith

by_sequence_total : (a b : RouteLeg) → by_sequence a b ≡ false → by_sequence b a ≡ true
by_sequence_total a b p = ground arith

pub legs_of-IsLoaded :
    (rt : Route) (d : Db) → IsLoaded d (record { route = rt; legs = legs_of rt.id d })
legs_of-IsLoaded rt d = (
  order_by-IsOrdered by_sequence by_sequence_trans by_sequence_total (route_legs_of rt.id d),
  order_by-perm by_sequence (route_legs_of rt.id d),
)

module _ ⦃env : Env⦄ (d : Db) where
  abbrev pub Down : Error → Type 0
  Down e = Faulty env × (e ≡ database)

  pub list_legs_for_route-Ensures :
      (route : ℕ) {s : Session}
      → s.pool ≡ d
      → Ensures
          (Aborts d Down)
          (λ legs s'. (s'.pool ≡ d) × (legs ≡ legs_of route d))
          (list_legs_for_route route)
          s
  unfolding list_legs_for_route
  list_legs_for_route-Ensures route {s} same =
      Ensures-mono (Ensures-query (λ f. (f, refl)) on_pool _ same (λ e h. cc h))
        (λ legs s' h. (ap (λ (x : Session). x.pool) h.0 ∙ same, sym (rw (← same) cc))) (λ e s' h. h)

  load_legs-Ensures :
      (routes : List Route) {s : Session}
      → s.pool ≡ d
      → Ensures
          (Aborts d Down)
          (λ rs s'.
            (s'.pool ≡ d)
            × (map (λ (r : RouteWithLegs). r.route) rs ≡ routes)
            × All (IsLoaded d) rs)
          (load_legs routes)
          s
  unfolding load_legs
  load_legs-Ensures [] same = Ensures-pure _ (same, refl, tt)
  load_legs-Ensures (rt ∷ rest) same =
      Ensures-bind (list_legs_for_route-Ensures rt.id same) λ legs s1 h1.
        Ensures-bind (load_legs-Ensures rest h1.0) λ rs s2 h2.
          Ensures-pure _ (h2.0, ap (λ t. rt ∷ t) h2.1, (rw h1.1 (legs_of-IsLoaded rt d), h2.2))

  -- Every route of the committed tables is loaded, once for each of its rows and in the order of
  -- the names if the collation is a total order, with exactly its own legs in the order of their
  -- sequence numbers. Nothing is written, and the only error is that of a failed call.
  pub all_routes_with_legs-Ensures :
      (trans : (a b c : Text)
        → env.collates a b ≡ true
        → env.collates b c ≡ true
        → env.collates a c ≡ true)
      (total : (a b : Text) → env.collates a b ≡ false → env.collates b a ≡ true) (s : Session)
      → s.pool ≡ d
      → Ensures
          (Aborts d Down)
          (λ rs s'.
            (s'.pool ≡ d)
            × (IsOrdered route_by_name (map (λ (r : RouteWithLegs). r.route) rs))
            × (Perm (map (λ (r : RouteWithLegs). r.route) rs) d.routes)
            × All (IsLoaded d) rs)
          all_routes_with_legs
          s
  unfolding all_routes_with_legs list_routes
  all_routes_with_legs-Ensures trans total s same =
      Ensures-bind (Ensures-query (λ f. (f, refl)) on_pool _ same (λ e h. cc h)) λ routes s1 h1.
        let sorted : routes ≡ order_by route_by_name d.routes = sym (rw (← same) cc) in
        Ensures-mono (load_legs-Ensures routes (ap (λ (x : Session). x.pool) h1.0 ∙ same))
          (λ rs s' h. (
            h.0,
            rw (h.1 ∙ sorted) (
                order_by-IsOrdered route_by_name (λ a b c. trans a.name b.name c.name)
                  (λ a b. total a.name b.name) d.routes),
            rw (h.1 ∙ sorted) (order_by-perm route_by_name d.routes),
            h.2,
          ))
          (λ e s' h. h)
