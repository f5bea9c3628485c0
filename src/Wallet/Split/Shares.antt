-- ===== src/Wallet/Split/Shares.antt =====
-- The shares of a fare (`splitFare` of backend/internal/wallet/repo.go).
use sesfikile.Base.{ℕ, ◌+◌, ◌-◌, ◌*◌, ◌/◌, ◌^◌, ◌≤◌, ◌<◌, ◌≡◌, refl, ap, arith}
use sesfikile.Base.Int.{ℤ, pos, negsuc, pos_part, neg_part, ◌+ℤ◌, ◌-ℤ◌, ◌*ℤ◌, ◌/ℤ◌, ◌≤ℤ◌, int_laws}
use sesfikile.Base.Word.{i64, i64-fits}
use sesfikile.Wallet.Split.{FareSplit, share, split_fare}

-- A fare and percentages for which no product leaves the range of int64.
pub record Priced (fare_cents platform_pct driver_pct : ℤ) : Type 0 where
  pub fare_nonneg : pos 0 ≤ℤ fare_cents
  pub platform_nonneg : pos 0 ≤ℤ platform_pct
  pub driver_nonneg : pos 0 ≤ℤ driver_pct
  pub at_most_all : pos_part platform_pct + pos_part driver_pct ≤ 100
  pub in_range : pos_part fare_cents * 100 < 2 ^ 63

mul_le : (f p : ℕ) → p ≤ 100 → f * p ≤ f * 100
mul_le f p h = grind arith

shares_le : (f p q : ℕ) → p + q ≤ 100 → f * p / 100 + f * q / 100 ≤ f
shares_le f p q h = omega (arith, mul_le f (p + q) h)

share-pos : (f p : ℕ) → p ≤ 100 → f * 100 < 2 ^ 63 → share (pos f) (pos p) ≡ pos (f * p / 100)
unfolding share ◌*ℤ◌ ◌/ℤ◌
share-pos f p h r =
    let small : f * p ≤ f * 100 = mul_le f p h in
    let product : pos f *ℤ pos p ≡ pos (f * p) = ground arith in
    rw (product, i64-fits (pos (f * p)) (omega arith)) (ground arith)

i64-sub : (a b : ℕ) → b ≤ a → a < 2 ^ 63 → i64 (pos a -ℤ pos b) ≡ pos (a - b)
unfolding ◌-ℤ◌
i64-sub a b h r =
    let difference : pos a -ℤ pos b ≡ pos (a - b) = ground arith in
    rw (difference, i64-fits (pos (a - b)) (omega arith))

-- A debit of an amount that is not negative does not wrap.
pub i64-neg : (x : ℤ) → pos 0 ≤ℤ x → pos_part x < 2 ^ 63 → i64 (pos 0 -ℤ x) ≡ pos 0 -ℤ x
unfolding ◌-ℤ◌
i64-neg x h r = i64-fits (pos 0 -ℤ x) (ground arith)

-- The split of a fare of `f` cents, by natural numbers.
pub split_fare-pos :
    (f p q : ℕ)
    → p + q ≤ 100
    → f * 100 < 2 ^ 63
    → split_fare (pos f) (pos p) (pos q) ≡ record {
      platform_cents = pos (f * p / 100);
      driver_cents = pos (f * q / 100);
      owner_cents = pos (f - f * p / 100 - f * q / 100);
    }
unfolding split_fare
split_fare-pos f p q h r =
    let both = shares_le f p q h in
    rw (share-pos f p (omega arith) r, share-pos f q (omega arith) r)
      (rw (i64-sub f (f * p / 100) (omega arith) (omega arith))
        (rw (i64-sub (f - f * p / 100) (f * q / 100) (omega arith) (omega arith))))

-- The platform and the driver get their percentages of the fare, rounded down; no share is
-- negative; and the three shares add up to the fare.
abbrev pub FairShares : ℤ → ℤ → ℤ → FareSplit → Type 0
FairShares fare_cents platform_pct driver_pct s =
    (s.platform_cents ≡ pos (pos_part fare_cents * pos_part platform_pct / 100))
    × (s.driver_cents ≡ pos (pos_part fare_cents * pos_part driver_pct / 100))
    × (pos 0 ≤ℤ s.owner_cents)
    × (s.platform_cents +ℤ s.driver_cents +ℤ s.owner_cents ≡ fare_cents)

-- For a fare and percentages that are not negative, the percentages at most 100 together and
-- 100 times the fare in the range of int64: the platform's and the driver's shares are their
-- percentages of the fare, rounded down, the owner's share is not negative, and the three shares
-- add up to the fare.
pub split_fare-FairShares :
    (fare_cents platform_pct driver_pct : ℤ)
    → Priced fare_cents platform_pct driver_pct
    → FairShares fare_cents platform_pct driver_pct (split_fare fare_cents platform_pct driver_pct)
split_fare-FairShares (pos f) (pos p) (pos q) h =
    let both = shares_le f p q h.at_most_all in
    rw (split_fare-pos f p q h.at_most_all h.in_range) (refl, refl, omega arith, omega int_laws)
split_fare-FairShares (negsuc f) p q h = absurd (omega (arith, h.fare_nonneg))
split_fare-FairShares (pos f) (negsuc p) q h = absurd (omega (arith, h.platform_nonneg))
split_fare-FairShares (pos f) (pos p) (negsuc q) h = absurd (omega (arith, h.driver_nonneg))

-- The amounts that a fare charge posts cancel out.
pub split_fare-cancels :
    (fare_cents platform_pct driver_pct : ℤ)
    → Priced fare_cents platform_pct driver_pct
    → let s = split_fare fare_cents platform_pct driver_pct in
      i64 (pos 0 -ℤ fare_cents)
        +ℤ (s.driver_cents +ℤ (s.owner_cents +ℤ (s.platform_cents +ℤ pos 0)))
      ≡ pos 0
split_fare-cancels x p q h =
    let fair = split_fare-FairShares x p q h in
    rw (i64-neg x h.fare_nonneg (omega (arith, h.in_range)))
      (omega (int_laws, ap pos_part fair.3, ap neg_part fair.3))
