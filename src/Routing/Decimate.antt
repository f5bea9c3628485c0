-- ===== src/Routing/Decimate.antt =====
-- `decimatePoints` of backend/internal/routing/handlers.go. The float operations are an argument.
pub mod Bounds
use sesfikile.Base.{
  ℕ, zero, suc, ◌-◌, ◌+◌, ◌≤◌, ◌<◌, Bool, true, false, Option, none, some, List, [], ◌∷◌, length,
  get_elem?, ltb, leb, ◌||◌, ◌≡◌, refl, if◌then◌else◌, arith, Bool-cases, inl, inr,
}
use sesfikile.Routing.Models.{Polyline}

-- `float64(n)`, the machine's `/` and `*`, and `int(x)` of a float that is not negative.
pub record Scaling : Type 0 where
  pub of_int : ℕ → ℕ
  pub div : ℕ → ℕ → ℕ
  pub mul : ℕ → ℕ → ℕ
  pub to_int : ℕ → ℕ

module _ (float : Scaling) (pts : Polyline) where
  abbrev pub index_at : (last step i : ℕ) → ℕ
  index_at last step i =
      let idx = float.to_int (float.mul (float.of_int i) step) in if ltb last idx then last else idx

  -- The loop from `i` on, with the rounds that are left; `none` stands for an index out of range.
  unfoldable pub pick : ℕ → (last step i : ℕ) → Option Polyline
  pick zero last step i = some []
  pick (suc n) last step i =
      let rest = pick n last step (suc i) in
      elim (get_elem? pts (index_at last step i)) [
        | none ↦ none
        | some p ↦ elim rest [ none ↦ none | some out ↦ some (p ∷ out) ]
      ]

  unfoldable pub decimate_points : ℕ → Option Polyline
  decimate_points max =
      if ltb max 2 || leb (length pts) max
      then some pts
      else (let last = length pts - 1 in
          pick max last (float.div (float.of_int last) (float.of_int (max - 1))) 0)
