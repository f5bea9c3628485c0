-- ===== src/Routing/Decimate/Bounds.antt =====
-- How many points `decimatePoints` keeps, and which.
use sesfikile.Base.{
  ℕ, zero, suc, Option, subst, ◌-◌, ◌+◌, ◌≤◌, ◌<◌, some, List, [], ◌∷◌, length, get_elem?, ltb, leb,
  ◌≡◌, ◌⊎◌, refl, sym, ap, ◌∙◌, arith, Bool-cases, inl, inr,
}
use sesfikile.Routing.Models.{Polyline}
use sesfikile.Routing.Decimate.{Scaling, index_at, pick, decimate_points}

get_elem?-in {ℓ} :
    {A : Type ℓ} (xs : List A) (i : ℕ) → i < length xs → (x : A) × (get_elem? xs i ≡ some x)
get_elem?-in [] i h = absurd (omega arith)
get_elem?-in (x ∷ xs) zero h = (x, refl)
get_elem?-in (x ∷ xs) (suc i) h = get_elem?-in xs i (omega arith)

module _ (float : Scaling) (pts : Polyline) where
  -- `out` has the points of the rounds from `i` on.
  abbrev Picked : (n last step i : ℕ) → Polyline → Type 0
  Picked n last step i out =
      (length out ≡ n)
      × ((k : ℕ) → k < n → get_elem? out k ≡ get_elem? pts (index_at float pts last step (i + k)))

  index_at-le : (last step i : ℕ) → index_at float pts last step i ≤ last
  index_at-le last step i = ground arith

  next :
      (n last step i : ℕ) (p : ℕ × ℕ) (out : Polyline)
      → get_elem? pts (index_at float pts last step i) ≡ some p
      → ((k : ℕ)
          → k < n
          → get_elem? out k ≡ get_elem? pts (index_at float pts last step (suc i + k)))
      → (k : ℕ) → k < suc n
      → get_elem? (p ∷ out) k ≡ get_elem? pts (index_at float pts last step (i + k))
  next n last step i p out at each zero lt = let same : i + 0 ≡ i = omega arith in rw same (sym at)
  next n last step i p out at each (suc k) lt =
      let same : i + suc k ≡ suc i + k = omega arith in rw same (each k (omega arith))

  index_at_zero :
      (last step : ℕ)
      → float.to_int (float.mul (float.of_int 0) step) ≡ 0
      → index_at float pts last step 0 ≡ 0
  index_at_zero last step h = ground arith

  pick-Picked :
      (n last step i : ℕ)
      → last < length pts
      → (out : Polyline) × (pick float pts n last step i ≡ some out) × Picked n last step i out
  unfolding pick
  pick-Picked zero last step i h = ([], refl, (refl, λ k lt. absurd (omega arith)))
  pick-Picked (suc n) last step i h =
      let (p, at) =
        get_elem?-in pts (index_at float pts last step i)
          (omega (arith, index_at-le last step i)) in
      let (out, e, picked) = pick-Picked n last step (suc i) h in
      (p ∷ out, rw (pick, at, e) refl, (ap suc picked.0, next n last step i p out at picked.1))

  -- The step of `max` points, and where the k-th of them lies before it is kept in range.
  abbrev pub reach : ℕ → ℕ → ℕ
  reach max k = float.to_int (
      float.mul (float.of_int k)
        (float.div (float.of_int (length pts - 1)) (float.of_int (max - 1))))

  -- Point `k` is the one at its place, or the last one, if its place is behind that.
  abbrev pub IsPoint : (max k : ℕ) → Option (ℕ × ℕ) → Type 0
  IsPoint max k p =
      ((reach max k < length pts) × (p ≡ get_elem? pts (reach max k)))
      ⊎ ((length pts ≤ reach max k) × (p ≡ get_elem? pts (length pts - 1)))

  index_at-IsPoint :
      (max k : ℕ)
      → 0 < length pts
      → IsPoint max k (
          get_elem? pts (
            index_at float pts
              (length pts - 1)
              (float.div (float.of_int (length pts - 1)) (float.of_int (max - 1)))
              k))
  index_at-IsPoint max k some_points = elim (Bool-cases (ltb (length pts - 1) (reach max k))) [
    | inl beyond ↦ rw beyond (inr (ground arith, refl))
    | inr within ↦ rw within (inl (ground arith, refl))
  ]

  -- A polyline of more than `max` points, where `max` is two or more, is cut to `max` of its points:
  -- the k-th is the one at the truncated product of k and the step, or the last one where that lies
  -- beyond the end; so no index is out of range. If 0 times the step truncates to 0, the first point
  -- stays. If the last product truncates to at least the last index, the last point stays; if to
  -- less, the last point kept is an earlier one. A shorter polyline, and any for a `max` below two,
  -- is left whole.
  pub decimate_points_lem :
      (max : ℕ)
      → reach max 0 ≡ 0
      → (out : Polyline) × (decimate_points float pts max ≡ some out)
        × (((max < 2) ⊎ (length pts ≤ max)) × (out ≡ pts)
            ⊎ (2 ≤ max)
              × (max < length pts)
              × (length out ≡ max)
              × (get_elem? out 0 ≡ get_elem? pts 0)
              × (((length pts - 1 ≤ reach max (max - 1))
                    × (get_elem? out (max - 1) ≡ get_elem? pts (length pts - 1)))
                  ⊎ ((reach max (max - 1) < length pts - 1)
                      × (get_elem? out (max - 1) ≡ get_elem? pts (reach max (max - 1)))))
              × ((k : ℕ) → k < max → IsPoint max k (get_elem? out k)))
  unfolding decimate_points
  decimate_points_lem max start = elim (Bool-cases (ltb max 2)) [
    | inl small ↦ (pts, rw (decimate_points, small) refl, inl (inl (ground arith), refl))
    | inr large ↦ elim (Bool-cases (leb (length pts) max)) [
      | inl short ↦ (pts, rw (decimate_points, large, short) refl, inl (inr (ground arith), refl))
      | inr long ↦
          let step = float.div (float.of_int (length pts - 1)) (float.of_int (max - 1)) in
          let in_range : length pts - 1 < length pts = ground arith in
          let (out, e, picked) = pick-Picked max (length pts - 1) step 0 in_range in
          let points : (k : ℕ) → k < max → IsPoint max k (get_elem? out k) = λ k lt.
            subst (IsPoint max k)
              (sym (
                picked.1 k lt
                ∙ ap (λ j. get_elem? pts (index_at float pts (length pts - 1) step j))
                    (omega arith)))
              (index_at-IsPoint max k (ground arith)) in
          (
            out,
            rw (decimate_points, large, long) e,
            inr (
              ground arith,
              ground arith,
              picked.0,
              picked.1 0 (ground arith)
                  ∙ ap (get_elem? pts) (index_at_zero (length pts - 1) step start),
              elim (points (max - 1) (ground arith)) [
                | inl (before, p) ↦ elim (Bool-cases (ltb (reach max (max - 1)) (length pts - 1))) [
                  | inl earlier ↦ inr (ground arith, p)
                  | inr at ↦
                      let same : reach max (max - 1) ≡ length pts - 1 = ground arith in
                      inl (ground arith, p ∙ ap (get_elem? pts) same)
                ]
                | inr (beyond, p) ↦ inl (ground arith, p)
              ],
              points,
            ),
          )
    ]
  ]
