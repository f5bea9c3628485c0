-- ===== src/Boarding/Limiter/Window.antt =====
-- How many attempts of a driver the limiter lets through within a window
-- (backend/internal/boarding/ratelimit.go).
use sesfikile.Base.{
  ℕ, ◌≤◌, Bool, false, ◌≡◌, refl, sym, ap, ◌∙◌, subst, List, [], ◌∷◌, ◌++◌, filter, length,
  length-append, length-filter-le, leb, if◌then◌else◌, ◌==◌, ==_iff, inl, inr, Bool-cases, arith,
}
use sesfikile.Base.Dict.{lookup, insert, lookup-insert}
use sesfikile.Boarding.Limiter.{Limit, Attempts, attempts_of, is_recent, allow}

filter-append : (p : ℕ → Bool) (xs ys : List ℕ) → filter p (xs ++ ys) ≡ filter p xs ++ filter p ys
filter-append p [] ys = refl
filter-append p (x ∷ xs) ys = ground (arith, filter-append p xs ys)

-- What is recent later is recent now.
filter-recent :
    (limit : Limit) (now later : ℕ) (xs : List ℕ)
    → now ≤ later
    → filter (is_recent limit later) (filter (is_recent limit now) xs)
      ≡ filter (is_recent limit later) xs
filter-recent limit now later [] h = refl
filter-recent limit now later (x ∷ xs) h = ground (arith, filter-recent limit now later xs h)

-- A call: the driver, and the time.
abbrev pub Calls : Type 0
Calls = List (ℕ × ℕ)

-- The times do not run backwards, from `start` on.
abbrev pub IsOrdered : ℕ → Calls → Type 0
IsOrdered start [] = Unit {0}
IsOrdered start ((driver, now) ∷ calls) = (start ≤ now) × IsOrdered now calls

-- The times at which the driver's attempts were let through, added to `log`.
unfoldable pub let_through : Limit → (driver : ℕ) → Calls → Attempts → List ℕ → List ℕ
let_through limit driver [] l log = log
let_through limit driver ((d, now) ∷ calls) l log =
    let (l', allowed) = allow limit d now l in
    let_through limit driver calls l'
      (if d == driver then (if allowed then log ++ now ∷ [] else log) else log)

abbrev pub last_time : ℕ → Calls → ℕ
last_time start [] = start
last_time start ((d, now) ∷ calls) = last_time now calls

-- The stored attempts are those let through, as far as they are recent from `now` on.
record Tracks (limit : Limit) (driver now : ℕ) (l : Attempts) (log : List ℕ) : Type 0 where
  same :
      (later : ℕ)
      → now ≤ later
      → filter (is_recent limit later) (attempts_of driver l) ≡ filter (is_recent limit later) log
  few : length (attempts_of driver l) ≤ limit.max

Tracks-recent :
    (limit : Limit) (driver now : ℕ) (l : Attempts) (log : List ℕ)
    → Tracks limit driver now l log
    → length (filter (is_recent limit now) log) ≤ limit.max
Tracks-recent limit driver now l log t = omega (
  arith,
  ap length (t.same now (omega arith)),
  length-filter-le (is_recent limit now) (attempts_of driver l),
  t.few,
)

refused-Tracks :
    (limit : Limit) (driver start now : ℕ) (l : Attempts) (log : List ℕ)
    → start ≤ now
    → Tracks limit driver start l log
    → Tracks limit driver now
        (insert driver (filter (is_recent limit now) (attempts_of driver l)) l)
        log
refused-Tracks limit driver start now l log h t = record {
  same = λ later le.
      rw (attempts_of, lookup-insert)
        (ground (
          arith,
          filter-recent limit now later (attempts_of driver l) le,
          t.same later (omega arith),
        ));
  few =
      rw (attempts_of, lookup-insert)
        (ground (arith, length-filter-le (is_recent limit now) (attempts_of driver l), t.few));
}

attempts_of-insert : (k : ℕ) (ts : List ℕ) (l : Attempts) → attempts_of k (insert k ts l) ≡ ts
attempts_of-insert k ts l = rw (attempts_of, lookup-insert) (rw ((==_iff k k).1 refl) refl)

attempts_of-insert_ne :
    (k j : ℕ) (ts : List ℕ) (l : Attempts)
    → (k == j) ≡ false
    → attempts_of j (insert k ts l) ≡ attempts_of j l
attempts_of-insert_ne k j ts l ne = rw (attempts_of, lookup-insert) (rw ne refl)

allowed-Tracks :
    (limit : Limit) (driver start now : ℕ) (l : Attempts) (log : List ℕ)
    → start ≤ now
    → leb limit.max (length (filter (is_recent limit now) (attempts_of driver l))) ≡ false
    → Tracks limit driver start l log
    → Tracks limit driver now
        (insert driver (filter (is_recent limit now) (attempts_of driver l) ++ now ∷ []) l)
        (log ++ now ∷ [])
allowed-Tracks limit driver start now l log h room t = record {
  same = λ later le. ap (filter (is_recent limit later)) stored ∙ at_driver later le;
  few = rw (ap length stored, length-append kept (now ∷ [])) (ground arith);
}
  where
    kept : List ℕ
    kept = filter (is_recent limit now) (attempts_of driver l)

    stored : attempts_of driver (insert driver (kept ++ now ∷ []) l) ≡ kept ++ now ∷ []
    stored = attempts_of-insert driver (kept ++ now ∷ []) l

    at_driver :
        (later : ℕ)
        → now ≤ later
        → filter (is_recent limit later) (kept ++ now ∷ [])
          ≡ filter (is_recent limit later) (log ++ now ∷ [])
    at_driver later le =
        filter-append (is_recent limit later) kept (now ∷ [])
        ∙ ap (λ (x : List ℕ). x ++ filter (is_recent limit later) (now ∷ []))
            (filter-recent limit now later (attempts_of driver l) le
              ∙ t.same later (omega (arith, h, le)))
        ∙ sym (filter-append (is_recent limit later) log (now ∷ []))

other-Tracks :
    (limit : Limit) (driver d start now : ℕ) (ts : List ℕ) (l : Attempts) (log : List ℕ)
    → start ≤ now
    → (d == driver) ≡ false
    → Tracks limit driver start l log
    → Tracks limit driver now (insert d ts l) log
other-Tracks limit driver d start now ts l log h ne t = record {
  same = λ later le.
      ap (filter (is_recent limit later)) (attempts_of-insert_ne d driver ts l ne)
      ∙ t.same later (omega (arith, h, le));
  few = rw (ap length (attempts_of-insert_ne d driver ts l ne)) t.few;
}

step-Tracks :
    (limit : Limit) (driver d start now : ℕ) (l : Attempts) (log : List ℕ)
    → start ≤ now
    → Tracks limit driver start l log
    → Tracks limit driver now
        (allow limit d now l).0
        (if d == driver then (if (allow limit d now l).1 then log ++ now ∷ [] else log) else log)
unfolding allow
step-Tracks limit driver d start now l log h t =
    elim (Bool-cases (leb limit.max (length (filter (is_recent limit now) (attempts_of d l))))) [
      | inl full ↦ rw full (elim (Bool-cases (d == driver)) [
        | inl e ↦ rw e (
            subst
              (λ (x : ℕ).
                Tracks limit driver now
                  (insert x (filter (is_recent limit now) (attempts_of x l)) l) log)
              (sym ((==_iff d driver).0 e)) (refused-Tracks limit driver start now l log h t))
        | inr e ↦ rw e (other-Tracks limit driver d start now _ l log h e t)
      ])
      | inr room ↦ rw room (elim (Bool-cases (d == driver)) [
        | inl e ↦
            let same = (==_iff d driver).0 e in
            rw e (
              subst
                (λ (x : ℕ).
                  Tracks limit driver now
                    (insert x (filter (is_recent limit now) (attempts_of x l) ++ now ∷ []) l)
                    (log ++ now ∷ []))
                (sym same) (allowed-Tracks limit driver start now l log h (rw same at room) t))
        | inr e ↦ rw e (other-Tracks limit driver d start now _ l log h e t)
      ])
    ]

run-Tracks :
    (limit : Limit) (driver start : ℕ) (calls : Calls) (l : Attempts) (log : List ℕ)
    → IsOrdered start calls
    → Tracks limit driver start l log
    → length
        (filter (is_recent limit (last_time start calls)) (let_through limit driver calls l log))
      ≤ limit.max
unfolding let_through
run-Tracks limit driver start [] l log o t = Tracks-recent limit driver start l log t
run-Tracks limit driver start ((d, now) ∷ calls) l log o t =
    run-Tracks limit driver now calls _ _ o.1 (step-Tracks limit driver d start now l log o.0 t)

-- Among any calls of the limiter, by any drivers and in the order of their times, it has let
-- through at most `max` attempts of one driver in the window that ends with the last call.
pub allow-window :
    (limit : Limit) (driver start : ℕ) (calls : Calls)
    → IsOrdered start calls
    → length
        (filter (is_recent limit (last_time start calls)) (let_through limit driver calls [] []))
      ≤ limit.max
unfolding lookup
allow-window limit driver start calls o =
    run-Tracks limit driver start calls [] [] o
      (record { same = λ later le. refl; few = omega arith })
