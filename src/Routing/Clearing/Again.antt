-- ===== src/Routing/Clearing/Again.antt =====
-- A second run of DeleteCatalogueData.
use sesfikile.Base.{
  ℕ, Bool, true, false, not, List, [], ◌∷◌, any, filter, ◌≡◌, refl, ◌∙◌, inl, inr, ◌==◌, ◌&&◌,
  arith, All, All-mono, All-filter, filter_idem, filter-All, filter_nothing,
}
use sesfikile.Boarding.Models.{IssuedPass}
use sesfikile.Routing.Models.{Route, RouteLeg, RouteGeometry}
use sesfikile.Routing.Clearing.{
  is_catalogue_route, of_catalogue, is_unused, Deleted, delete_catalogue_data,
}
use sesfikile.Routing.Clearing.Baseline.{baseline}
use sesfikile.Routing.Clearing.Outcome.{Refused, deleted_of, delete_catalogue_data-Ensures}
use sesfikile.Database.Schema.{Db}
use sesfikile.Database.Session.{Env, Session, Error, database}
use sesfikile.Database.Ensures.{Ensures, Ensures-mono, Aborts, Faulty}

abbrev left : List Route → List Route
left routes = filter (λ rt. not (is_catalogue_route rt)) routes

of_catalogue_gone : (routes : List Route) (k : ℕ) → of_catalogue (left routes) k ≡ false
of_catalogue_gone [] k = refl
of_catalogue_gone (rt ∷ rest) k = ground (arith, of_catalogue_gone rest k)

no_catalogue_pass :
    (passes : List IssuedPass) (routes : List Route)
    → any
        (λ rt. is_catalogue_route rt && any (λ (p : IssuedPass). p.route_id == rt.id) passes)
        (left routes)
      ≡ false
no_catalogue_pass passes [] = refl
no_catalogue_pass passes (rt ∷ rest) = ground (arith, no_catalogue_pass passes rest)

everywhere {ℓ κ} : {A : Type ℓ} (P : A → Type κ) (xs : List A) → ((x : A) → P x) → All P xs
everywhere P [] f = tt
everywhere P (x ∷ xs) f = (f x, everywhere P xs f)

not-eq-true : (b : Bool) → b ≡ false → not b ≡ true
not-eq-true true h = cc
not-eq-true false h = refl

eq_not-true : (b : Bool) → not b ≡ true → b ≡ false
eq_not-true true h = cc
eq_not-true false h = refl

filter_again {ℓ} :
    {A : Type ℓ} (p : A → Bool) (xs : List A) → filter p (filter (λ x. not (p x)) xs) ≡ []
filter_again p xs = filter_nothing p (filter (λ x. not (p x)) xs) (
    All-mono _ _ (filter (λ x. not (p x)) xs) (λ x h. eq_not-true (p x) h.1)
      (All-filter (λ x. Unit {0}) (λ x. not (p x)) xs (everywhere _ xs (λ x. tt))))

module _ (d : Db) where
  keeps_all {ℓ} :
      {A : Type ℓ} (key : A → ℕ) (xs : List A)
      → filter (λ x. not (of_catalogue (left d.routes) (key x))) xs ≡ xs
  keeps_all key xs =
      filter-All _ xs (everywhere _ xs (λ x. not-eq-true _ (of_catalogue_gone d.routes (key x))))

  drops_none {ℓ} :
      {A : Type ℓ} (key : A → ℕ) (xs : List A)
      → filter (λ x. of_catalogue (left d.routes) (key x)) xs ≡ []
  drops_none key xs =
      filter_nothing _ xs (everywhere _ xs (λ x. of_catalogue_gone d.routes (key x)))

abbrev pub none_deleted : Deleted
none_deleted = record { routes = 0; legs = 0; stops = 0; geometries = 0 }

module _ (d : Db) where
  legs_left : List RouteLeg
  legs_left = filter (λ (l : RouteLeg). not (of_catalogue d.routes l.route_id)) d.route_legs

  geometries_left : List RouteGeometry
  geometries_left =
      filter (λ (g : RouteGeometry). not (of_catalogue d.routes g.route_id)) d.route_geometries

  deleted_of-baseline : deleted_of (baseline d) ≡ none_deleted
  unfolding legs_left geometries_left
  deleted_of-baseline =
      rw
        (
          keeps_all d (λ (l : RouteLeg). l.route_id) legs_left,
          drops_none d (λ (l : RouteLeg). l.route_id) legs_left,
          drops_none d (λ (g : RouteGeometry). g.route_id) geometries_left,
          filter_again is_catalogue_route d.routes,
          filter_again (is_unused legs_left) d.stops,
        )
        refl

  baseline_idem : baseline (baseline d) ≡ baseline d
  unfolding legs_left geometries_left
  baseline_idem =
      rw
        (
          keeps_all d (λ (l : RouteLeg). l.route_id) legs_left,
          keeps_all d (λ (g : RouteGeometry). g.route_id) geometries_left,
          filter_idem (λ rt. not (is_catalogue_route rt)) d.routes,
          filter_idem (λ s. not (is_unused legs_left s)) d.stops,
        )
        refl

only_fault :
    ⦃env : Env⦄ (d : Db) (e : Error) → Refused env (baseline d) e → Faulty env × (e ≡ database)
only_fault d e (inl f) = f
only_fault d e (inr r) = cc (r.0, no_catalogue_pass d.boarding_pass_codes d.routes)

-- A run on tables that a run has left removes nothing: it commits the same tables and reports
-- four zeros, or a database call failed and the tables are as they were.
pub delete_catalogue_data_again :
    ⦃env : Env⦄ (d : Db) (s : Session)
    → s.pool ≡ baseline d
    → Ensures
        (Aborts (baseline d) (λ e. Faulty env × (e ≡ database)))
        (λ n s'. (s'.pool ≡ baseline d) × (n ≡ none_deleted))
        delete_catalogue_data
        s
delete_catalogue_data_again d s same =
    Ensures-mono (delete_catalogue_data-Ensures (baseline d) s same)
      (λ n s' h. (h.0 ∙ baseline_idem d, h.1 ∙ deleted_of-baseline d))
      (λ e s' h. (h.0, only_fault d e h.1))
