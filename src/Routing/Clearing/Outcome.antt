-- ===== src/Routing/Clearing/Outcome.antt =====
-- How a run of DeleteCatalogueData ends.
use sesfikile.Base.{true, false, [], filter, length, ◌≡◌, refl, ap, ◌∙◌, ◌⊎◌, inl, inr, Bool-cases}
use sesfikile.Routing.Clearing.{
  is_catalogue_route, of_catalogue, is_unused, drop_geometries, drop_legs, drop_routes, drop_stops,
  Deleted, delete_catalogue_data,
}
use sesfikile.Routing.Clearing.Baseline.{
  without_geometries, without_legs, without_routes, baseline, has_catalogue_pass, held_by_pass,
  IsListed-All,
}
use sesfikile.Database.Schema.{Db}
use sesfikile.Database.Session.{
  Env, Session, Error, database, foreign_key_violation, Result, ok, err, on_tx, all_balanced, exec,
}
use sesfikile.Database.Ensures.{
  Ensures, Ensures-pure, Ensures-bind, Ensures-mono, Ensures-exec, Ensures-write, Ensures-begin,
  Ensures-commit, Aborts, Faulty,
}

-- The counts that a run reports.
abbrev pub deleted_of : Db → Deleted
deleted_of d = record {
  routes = length (filter is_catalogue_route d.routes);
  legs = length (filter (λ l. of_catalogue d.routes l.route_id) d.route_legs);
  stops =
      let kept = without_routes (without_legs (without_geometries d)) in
      length (filter (is_unused kept.route_legs) d.stops);
  geometries = length (filter (λ g. of_catalogue d.routes g.route_id) d.route_geometries);
}

-- Why a run is refused.
abbrev pub Refused : Env → Db → Error → Type 0
Refused env d e =
    (Faulty env × (e ≡ database)) ⊎ ((has_catalogue_pass d ≡ true) × (e ≡ foreign_key_violation))

-- The open transaction of a request that found the tables as `d`.
record Stage (d t : Db) (s : Session) : Type 0 where
  pool : s.pool ≡ d
  tx : s.tx ≡ t
  touched : s.touched ≡ []

-- The rows that are left when the routes are to go.
abbrev half : Db → Db
half d = without_legs (without_geometries d)

drop_routes-held :
    (d : Db) → has_catalogue_pass d ≡ true → drop_routes (half d) ≡ err foreign_key_violation
unfolding drop_routes
drop_routes-held d h = rw (held_by_pass d d.routes (IsListed-All d.routes), h) refl

drop_routes-free :
    (d : Db)
    → has_catalogue_pass d ≡ false
    → drop_routes (half d)
      ≡ ok (length (filter is_catalogue_route d.routes), without_routes (half d))
unfolding drop_routes
drop_routes-free d h = rw (held_by_pass d d.routes (IsListed-All d.routes), h) refl

module _ ⦃env : Env⦄ (d : Db) where
  fault : Faulty env → Refused env d database
  fault down = inl (down, refl)

  -- A statement that no row refuses.
  staged :
      {A : Type 0} (f : Db → Result (A × Db)) (a : A) (t u : Db) {s : Session}
      → Stage d t s
      → f t ≡ ok (a, u)
      → Ensures
          (Aborts d (Refused env d))
          (λ a' s'. (a' ≡ a) × Stage d u s')
          (exec on_tx (λ id now. f))
          s
  staged f a t u {s} st e =
      Ensures-mono (Ensures-exec fault (λ id now. f) a u st.pool (ap f st.tx ∙ e))
        (λ a' s' h. (
          h.0,
          record {
            pool = ap (λ (x : Session). x.pool) h.1 ∙ st.pool;
            tx = ap (λ (x : Session). x.tx) h.1;
            touched = ap (λ (x : Session). x.touched) h.1 ∙ st.touched;
          },
        ))
        (λ e s' h. h)

  routes_staged :
      {s : Session}
      → Stage d (half d) s
      → Ensures
          (Aborts d (Refused env d))
          (λ n s'.
            ((n ≡ length (filter is_catalogue_route d.routes))
              × Stage d (without_routes (half d)) s')
            × (has_catalogue_pass d ≡ false))
          (exec on_tx (λ id now. drop_routes))
          s
  routes_staged {s} st = elim (Bool-cases (has_catalogue_pass d)) [
    | inl held ↦
        let refused : drop_routes s.tx ≡ err foreign_key_violation =
          ap drop_routes st.tx ∙ drop_routes-held d held in
        Ensures-mono
          (Ensures-write fault (λ id now. drop_routes) st.pool (λ e h. inr (held, cc (h, refused))))
          (λ n s' h. cc (h.1, refused)) (λ e s' h. h)
    | inr free ↦
        Ensures-mono (staged drop_routes _ _ _ st (drop_routes-free d free)) (λ n s' h. (h, free))
          (λ e s' h. h)
  ]

  -- A run ends in one of two ways. It commits the tables without the catalogue, and reports how
  -- many rows it removed of each kind; then no pass was issued for a route of the catalogue. Or it
  -- leaves the committed tables as they were, because a database call failed or such a pass
  -- exists. The order of its statements never makes a reference refuse one.
  pub delete_catalogue_data-Ensures :
      (s : Session)
      → s.pool ≡ d
      → Ensures
          (Aborts d (Refused env d))
          (λ n s'. (s'.pool ≡ baseline d) × (n ≡ deleted_of d) × (has_catalogue_pass d ≡ false))
          delete_catalogue_data
          s
  unfolding delete_catalogue_data drop_geometries drop_legs drop_stops all_balanced
  delete_catalogue_data-Ensures s same = Ensures-bind (Ensures-begin fault same) λ _ s1 p1.
      Ensures-bind
        (staged drop_geometries _ d (without_geometries d)
          (record { pool = p1.0; tx = p1.1; touched = p1.2 }) refl)
        λ g s2 p2.
          Ensures-bind (staged drop_legs _ (without_geometries d) (half d) p2.1 refl) λ l s3 p3.
            Ensures-bind (routes_staged p3.1) λ r s4 p4.
              Ensures-bind (staged drop_stops _ (without_routes (half d)) (baseline d) p4.0.1 refl)
                λ t s5 p5.
                  Ensures-bind (Ensures-commit fault p5.1.pool (rw p5.1.touched refl)) λ _ s6 p6.
                    Ensures-pure _ (p6 ∙ p5.1.tx, rw (p2.0, p3.0, p4.0.0, p5.0) refl, p4.1)
