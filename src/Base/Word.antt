-- ===== src/Base/Word.antt =====
-- Go's int64, an integer that is wrapped to 64 bits after each operation that can leave the range.
use sesfikile.Base.Tests.{ltb, if◌then◌else◌}
use sesfikile.Base.Int.{ℤ, pos, negsuc, pos_part, neg_part}
use Prim.Native.Nat.{ℕ, ◌+◌, ◌-◌, ◌%◌, ◌^◌, ◌≤◌, ◌<◌}
use mathlib.Core.Path.{◌≡◌}
use mathlib.Core.Bool.{Bool, ◌&&◌}
use native.Mathlib.Omega.{arith}

abbrev signed64 : ℕ → ℤ
signed64 k = if ltb k (2 ^ 63) then pos k else negsuc (2 ^ 64 - 1 - k)

-- The int64 that an integer wraps to.
unfoldable pub i64 : ℤ → ℤ
i64 (pos n) = signed64 (n % 2 ^ 64)
i64 (negsuc n) = signed64 (2 ^ 64 - 1 - n % 2 ^ 64)

-- In the range of int64.
abbrev pub Fits64 : ℤ → Type 0
Fits64 a = (pos_part a < 2 ^ 63) × (neg_part a ≤ 2 ^ 63)

abbrev pub fits64 : ℤ → Bool
fits64 a = ltb (pos_part a) (2 ^ 63) && ltb (neg_part a) (2 ^ 63 + 1)

pub i64-fits : (a : ℤ) → Fits64 a → i64 a ≡ a
unfolding i64
i64-fits (pos n) h = ground arith
i64-fits (negsuc n) h = ground arith

pub Fits64-i64 : (a : ℤ) → Fits64 (i64 a)
unfolding i64
Fits64-i64 (pos n) = ground arith
Fits64-i64 (negsuc n) = ground arith
