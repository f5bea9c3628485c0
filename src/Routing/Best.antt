-- ===== src/Routing/Best.antt =====
-- What it means that a loop found the cheapest candidate, and that the loops of
-- backend/internal/routing/graph.go find it.
use sesfikile.Base.{
  ◌≡◌, refl, ap, subst, true, false, Option, none, some, List, [], ◌∷◌, ◌⊎◌, inl, inr, Bool-cases,
  arith,
}
use sesfikile.Base.Int.{ℤ, ◌≤ℤ◌, ltb_ℤ}
use sesfikile.Routing.Graph.{for_each, offer}

-- Some member satisfies the predicate.
abbrev pub Any : {A : Type 0} → (A → Type 0) → List A → Type 0
Any P [] = ⊥
Any P (x ∷ xs) = P x ⊎ Any P xs

module _ {C : Type 0} (cost : C → ℤ) where
  -- The best is a candidate that costs no more than any other; it is missing if there is none.
  abbrev pub IsBest : (C → Type 0) → Option C → Type 0
  IsBest P none = (c : C) → P c → ⊥
  IsBest P (some b) = P b × ((c : C) → P c → cost b ≤ℤ cost c)

  pub IsBest-iff :
      (P Q : C → Type 0) (best : Option C)
      → ((c : C) → P c → Q c)
      → ((c : C) → Q c → P c)
      → IsBest P best
      → IsBest Q best
  IsBest-iff P Q none to from h = λ c q. h c (from c q)
  IsBest-iff P Q (some b) to from h = (to b h.0, λ c q. h.1 c (from c q))

  same_cost : (x c : C) → some x ≡ some c → cost x ≤ℤ cost c
  same_cost x c e = subst (λ (y : C). cost x ≤ℤ cost y) (ap (value x) e) (omega arith)
    where
      value : C → Option C → C
      value y none = y
      value y (some z) = z

  -- The new candidate is as good as the old best, or better, if the test says so.
  beats :
      (x b : C) (P : C → Type 0)
      → ltb_ℤ (cost x) (cost b) ≡ true
      → ((c : C) → P c → cost b ≤ℤ cost c)
      → (c : C) → P c ⊎ (some x ≡ some c)
      → cost x ≤ℤ cost c
  beats x b P e h c (inl p) = let k = h c p in ground arith
  beats x b P e h c (inr same) = same_cost x c same

  holds_out :
      (x b : C) (P : C → Type 0)
      → ltb_ℤ (cost x) (cost b) ≡ false
      → ((c : C) → P c → cost b ≤ℤ cost c)
      → (c : C) → P c ⊎ (some x ≡ some c)
      → cost b ≤ℤ cost c
  holds_out x b P e h c (inl p) = h c p
  holds_out x b P e h c (inr same) = let k = same_cost x c same in ground arith

  one :
      (x : C) (P : C → Type 0)
      → ((c : C) → P c → ⊥)
      → (c : C) → P c ⊎ (some x ≡ some c)
      → cost x ≤ℤ cost c
  one x P h c (inl p) = absurd (h c p)
  one x P h c (inr same) = same_cost x c same

  nothing_new :
      (P : C → Type 0) (b : C)
      → ((c : C) → P c → cost b ≤ℤ cost c)
      → (c : C) → P c ⊎ (none ≡ some c)
      → cost b ≤ℤ cost c
  nothing_new P b h c (inl p) = h c p
  nothing_new P b h c (inr e) = cc

  still_none : (P : C → Type 0) → ((c : C) → P c → ⊥) → (c : C) → P c ⊎ (none ≡ some c) → ⊥
  still_none P h c (inl p) = h c p
  still_none P h c (inr e) = cc

  pub offer-IsBest :
      (P : C → Type 0) (candidate best : Option C)
      → IsBest P best
      → IsBest (λ c. P c ⊎ (candidate ≡ some c)) (offer cost candidate best)
  unfolding offer
  offer-IsBest P none none h = still_none P h
  offer-IsBest P none (some b) h = (inl h.0, nothing_new P b h.1)
  offer-IsBest P (some x) none h = (inr refl, one x P h)
  offer-IsBest P (some x) (some b) h = elim (Bool-cases (ltb_ℤ (cost x) (cost b))) [
    | inl e ↦ rw e (inr refl, beats x b P e h.1)
    | inr e ↦ rw e (inl h.0, holds_out x b P e h.1)
  ]

  -- A loop whose body adds the candidates of one member adds those of them all.
  pub for_each-IsBest :
      {A : Type 0} (Q : A → C → Type 0) (f : A → Option C → Option C)
      → ((x : A) (P : C → Type 0) (best : Option C)
          → IsBest P best
          → IsBest (λ c. P c ⊎ Q x c) (f x best))
      → (xs : List A) (P : C → Type 0) (best : Option C) → IsBest P best
      → IsBest (λ c. P c ⊎ Any (λ x. Q x c) xs) (for_each f xs best)
  unfolding for_each
  for_each-IsBest Q f step [] P best h = IsBest-iff P _ best (λ c p. inl p) (λ c. only c) h
    where
      only : (c : C) → P c ⊎ ⊥ → P c
      only c (inl p) = p
      only c (inr e) = absurd e
  for_each-IsBest {A} Q f step (x ∷ xs) P best h =
      IsBest-iff (λ c. (P c ⊎ Q x c) ⊎ Any (λ y. Q y c) xs) _ (for_each f xs (f x best)) to from
        (for_each-IsBest Q f step xs (λ c. P c ⊎ Q x c) (f x best) (step x P best h))
    where
      to :
          (c : C)
          → (P c ⊎ Q x c) ⊎ Any (λ (y : A). Q y c) xs
          → P c ⊎ (Q x c ⊎ Any (λ (y : A). Q y c) xs)
      to c (inl (inl p)) = inl p
      to c (inl (inr q)) = inr (inl q)
      to c (inr a) = inr (inr a)

      from :
          (c : C)
          → P c ⊎ (Q x c ⊎ Any (λ (y : A). Q y c) xs)
          → (P c ⊎ Q x c) ⊎ Any (λ (y : A). Q y c) xs
      from c (inl p) = inl (inl p)
      from c (inr (inl q)) = inl (inr q)
      from c (inr (inr a)) = inr a
