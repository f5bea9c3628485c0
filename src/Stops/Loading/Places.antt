-- ===== src/Stops/Loading/Places.antt =====
-- What loadRouteStops (backend/internal/stops/handlers.go) has loaded, against the tables.
use sesfikile.Base.{
  ℕ, ◌≡◌, refl, sym, subst, Option, none, some, List, [], ◌∷◌, find?, ◌==◌, inl, inr, Option-cases,
}
use sesfikile.Routing.Models.{Stop}
use sesfikile.Routing.Repo.{get_stop_by_id}
use sesfikile.Stops.Match.{RouteStop}
use sesfikile.Stops.Loading.{placed, load_stops}
use sesfikile.Database.Schema.{Db}
use sesfikile.Database.Session.{Env, Session, Error, on_pool}
use sesfikile.Database.Ensures.{Ensures, Holds, Ensures-pure, Ensures-bind}
use sesfikile.Database.Healthy.{lookup_cases}

-- A row of the stops with an id, at a place.
abbrev pub IsAt : Db → ℕ → RouteStop → Type 0
IsAt d id p =
    (st : Stop) × (find? (λ (x : Stop). x.id == id) d.stops ≡ some st) × (placed st ≡ some p)

-- One place for each id, in order.
abbrev pub AreAt : Db → List ℕ → List RouteStop → Type 0
AreAt d [] [] = Unit {0}
AreAt d (id ∷ ids) (p ∷ ps) = IsAt d id p × AreAt d ids ps
AreAt d _ _ = ⊥

abbrev pub Loaded : Db → List ℕ → Option (List RouteStop) → Session → Type 0
Loaded d ids o s = (s.pool ≡ d) × ((ps : List RouteStop) → o ≡ some ps → AreAt d ids ps)

abbrev pub AnyError : Error → Session → Type 0
AnyError e s = Unit {0}

module _ ⦃env : Env⦄ (d : Db) where
  get_stop-Ensures :
      (id : ℕ) (s : Session)
      → s.pool ≡ d
      → Ensures AnyError
          (λ st s'. (s'.pool ≡ d) × (find? (λ (x : Stop). x.id == id) d.stops ≡ some st))
          (get_stop_by_id id)
          s
  unfolding get_stop_by_id
  get_stop-Ensures id s same = record {
    holds = elim (lookup_cases on_pool (λ t. find? (λ (x : Stop). x.id == id) t.stops) s) [
      | inl (st, there, e) ↦ subst (Holds AnyError Q) (sym e) (same, rw same at there)
      | inr (inl (gone, e)) ↦ subst (Holds AnyError Q) (sym e) tt
      | inr (inr (down, e)) ↦ subst (Holds AnyError Q) (sym e) tt
    ];
  }
    where
      Q : Stop → Session → Type 0
      Q st s' = (s'.pool ≡ d) × (find? (λ (x : Stop). x.id == id) d.stops ≡ some st)

  joined :
      (id : ℕ) (ids : List ℕ) (p : RouteStop) (rest : Option (List RouteStop))
      → IsAt d id p
      → ((ps : List RouteStop) → rest ≡ some ps → AreAt d ids ps)
      → (ps : List RouteStop) → (elim rest [ none ↦ none | some ps' ↦ some (p ∷ ps') ]) ≡ some ps
      → AreAt d (id ∷ ids) ps
  joined id ids p none at f ps e = cc e
  joined id ids p (some ps') at f ps e =
      subst (AreAt d (id ∷ ids)) {x = p ∷ ps'} (cc e) (at, f ps' refl)

  pub load_stops-Loaded :
      (ids : List ℕ) (s : Session) → s.pool ≡ d → Ensures AnyError (Loaded d ids) (load_stops ids) s
  unfolding load_stops
  load_stops-Loaded [] s same = Ensures-pure _ (same, λ ps e. subst (AreAt d []) {x = []} (cc e) tt)
  load_stops-Loaded (id ∷ ids) s same = Ensures-bind (get_stop-Ensures id s same) λ st s₁ h.
      elim (Option-cases (placed st)) [
        | inl unknown ↦ rw unknown (Ensures-pure _ (h.0, λ ps e. cc e))
        | inr (p, known) ↦ rw known (
            Ensures-bind (load_stops-Loaded ids s₁ h.0)
              λ rest s₂ l. Ensures-pure _ (l.0, joined id ids p rest (st, h.1, known) l.1))
      ]
