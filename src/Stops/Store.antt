-- ===== src/Stops/Store.antt =====
-- `Store` of backend/internal/stops/store.go. Each method holds the lock for its whole body, so it
-- is one step; `time.Now()` is an argument.
pub mod Lifecycle
use sesfikile.Base.{ℕ, Option, none, some}
use sesfikile.Base.Dict.{Dict, lookup, insert}
use sesfikile.Stops.Models.{Status, pending, unmatched, acknowledged, Request}

abbrev pub Store : Type 0
Store = Dict Request

unfoldable pub put : Request → Store → Store × Request
put req s = (insert req.id req s, req)

unfoldable pub get : ℕ → Store → Option Request
get id s = lookup id s

-- `if req.Status == StatusAcknowledged { return req, nil }`, and the write of the new record.
abbrev pub acknowledge_found : ℕ → ℕ → Request → Status → Store → Store × Option Request
acknowledge_found id now req acknowledged s = (s, some req)
acknowledge_found id now req other s =
    let acked = record req { status = acknowledged; acked_at = some now } in
    (insert id acked s, some acked)

-- `none` is `ErrNotFound`.
unfoldable pub acknowledge : (id now : ℕ) → Store → Store × Option Request
acknowledge id now s = elim (lookup id s) [
  | none ↦ (s, none)
  | some req ↦ acknowledge_found id now req req.status s
]
