-- ===== src/Boarding/Limiter.antt =====
-- `codeRateLimiter` of backend/internal/boarding/ratelimit.go. `Allow` holds the lock for its
-- whole body; `time.Now()` is an argument. `t.After(now.Add(-window))` is written as a sum, since
-- times are numbers.
pub mod Window
use sesfikile.Base.{
  ℕ, ◌+◌, Bool, true, false, Option, none, some, List, [], ◌∷◌, ◌++◌, filter, length, ltb, leb,
  if◌then◌else◌,
}
use sesfikile.Base.Dict.{Dict, lookup, insert}

pub record Limit : Type 0 where
  pub window : ℕ
  pub max : ℕ

-- `attempts`
abbrev pub Attempts : Type 0
Attempts = Dict (List ℕ)

abbrev pub attempts_of : ℕ → Attempts → List ℕ
attempts_of driver l = elim (lookup driver l) [ none ↦ [] | some ts ↦ ts ]

abbrev pub is_recent : Limit → ℕ → ℕ → Bool
is_recent limit now t = ltb now (t + limit.window)

unfoldable pub allow : Limit → (driver now : ℕ) → Attempts → Attempts × Bool
allow limit driver_id now l =
    let kept = filter (is_recent limit now) (attempts_of driver_id l) in
    if leb limit.max (length kept)
    then (insert driver_id kept l, false)
    else (insert driver_id (kept ++ now ∷ []) l, true)
