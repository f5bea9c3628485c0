-- ===== src/Stops/Loading.antt =====
-- The stops of a route in backend/internal/stops/handlers.go: `loadRouteStops`.
pub mod Places
use sesfikile.Base.{ℕ, Bool, Option, none, some, List, [], ◌∷◌, any, ◌==◌, if◌then◌else◌}
use sesfikile.Routing.Models.{Stop, RouteLeg}
use sesfikile.Routing.Repo.{get_stop_by_id}
use sesfikile.Stops.Match.{RouteStop}
use sesfikile.Database.Session.{Env, Action, pure, ◌>>=◌}

-- `seen[id]`
abbrev pub is_seen : ℕ → List ℕ → Bool
is_seen id seen = any (λ k. k == id) seen

-- `for _, leg := range legs`, with the ids that are seen.
unfoldable pub unseen_stops : List ℕ → List RouteLeg → List ℕ
unseen_stops seen [] = []
unseen_stops seen (leg ∷ legs) =
    let known = is_seen leg.to_stop_id seen in
    let rest = unseen_stops (if known then seen else leg.to_stop_id ∷ seen) legs in
    if known then rest else leg.to_stop_id ∷ rest

-- The ids of a route's stops, from its first leg and the others.
unfoldable pub stop_ids : RouteLeg → List RouteLeg → List ℕ
stop_ids leg legs = leg.from_stop_id ∷ unseen_stops (leg.from_stop_id ∷ []) (leg ∷ legs)

-- The place of a stop whose coordinates are both known.
abbrev pub placed : Stop → Option RouteStop
placed stop = elim stop.latitude [
  | none ↦ none
  | some lat ↦ elim stop.longitude [
    | none ↦ none
    | some lng ↦ some (record { stop_id = stop.id; lat = lat; lng = lng })
  ]
]

module _ ⦃env : Env⦄ where
  -- `for _, id := range ids`; `none` is `ErrCoordinatesUnknown`.
  unfoldable pub load_stops : List ℕ → Action (Option (List RouteStop))
  load_stops [] = pure (some [])
  load_stops (id ∷ ids) = do
    stop ← get_stop_by_id id
    elim (placed stop) [
      | none ↦ pure none
      | some p ↦ do
        rest ← load_stops ids
        pure (elim rest [ none ↦ none | some ps ↦ some (p ∷ ps) ])
    ]

  unfoldable pub load_route_stops : RouteLeg → List RouteLeg → Action (Option (List RouteStop))
  load_route_stops leg legs = load_stops (stop_ids leg legs)
