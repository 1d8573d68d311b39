-- ===== src/Prelude/Fields.antt =====
-- Words packed from two fields: `(hi << k) | lo`, and `w & (2^k - 1)`, read as arithmetic.
use Prim.Native.Nat.{ℕ, zero, suc, ◌+◌, ◌-◌, ◌*◌, ◌/◌, ◌%◌, ◌^◌, ◌≤◌, ◌<◌, min, max}
use Prim.Native.Nat.{bit_or, bit_and, bit_or-bitwise, bit_and-bitwise}
use mathlib.Core.Path.{◌≡◌, refl, ap}
use native.Mathlib.Nat.{pow-suc, one-le-pow}
use native.Mathlib.Omega.{arith}
use graph_streaming_cc.Prelude.Xor.{same_digits}

-- The lowest binary digit of each operation.
pub bit_or_step : (a b : ℕ) → bit_or a b ≡ bit_or (a / 2) (b / 2) * 2 + max (a % 2) (b % 2)
bit_or_step zero b = omega (arith, bit_or-bitwise 0 b, bit_or-bitwise 0 (b / 2))
bit_or_step (suc a) b = omega (
  arith,
  bit_or-bitwise (suc a) b,
  bit_or-bitwise (suc a / 2) (b / 2),
  same_digits (λ y. y) max (suc a / 2) (b / 2) a (suc a / 2) (omega arith) (omega arith),
)

bit_and_step : (a b : ℕ) → bit_and a b ≡ bit_and (a / 2) (b / 2) * 2 + min (a % 2) (b % 2)
bit_and_step zero b = omega (arith, bit_and-bitwise 0 b, bit_and-bitwise 0 (b / 2))
bit_and_step (suc a) b = omega (
  arith,
  bit_and-bitwise (suc a) b,
  bit_and-bitwise (suc a / 2) (b / 2),
  same_digits (λ y. 0) min (suc a / 2) (b / 2) a (suc a / 2) (omega arith) (omega arith),
)

or_zero_below : (n a : ℕ) → a ≤ n → bit_or a 0 ≡ a
or_zero_below n zero h = refl
or_zero_below zero (suc a) h = absurd (omega arith)
or_zero_below (suc n) (suc a) h =
    omega (arith, bit_or_step (suc a) 0, or_zero_below n (suc a / 2) (omega arith))

and_zero_below : (n a : ℕ) → a ≤ n → bit_and a 0 ≡ 0
and_zero_below n zero h = refl
and_zero_below zero (suc a) h = absurd (omega arith)
and_zero_below (suc n) (suc a) h =
    omega (arith, bit_and_step (suc a) 0, and_zero_below n (suc a / 2) (omega arith))

shifted : (q k : ℕ) → q * 2 ^ suc k ≡ 2 * (q * 2 ^ k)
shifted q k = omega (arith, ap (λ (t : ℕ). q * t) (pow-suc 2 k))

-- The fields of `(hi << k) | lo` do not overlap, so it is a sum.
pub bit_or-shift : (k hi lo : ℕ) → lo < 2 ^ k → bit_or (hi * 2 ^ k) lo ≡ hi * 2 ^ k + lo
bit_or-shift zero hi lo h = ground (arith, or_zero_below hi hi)
bit_or-shift (suc k) hi lo h = ground (
  arith,
  bit_or_step (hi * 2 ^ suc k) lo,
  shifted hi k,
  pow-suc 2 k,
  bit_or-shift k hi (lo / 2) (omega (arith, pow-suc 2 k)),
)

and_fields : (k hi lo : ℕ) → lo < 2 ^ k → bit_and (hi * 2 ^ k + lo) (2 ^ k - 1) ≡ lo
and_fields zero hi lo h = ground (arith, and_zero_below (hi * 1 + lo) (hi * 1 + lo))
and_fields (suc k) hi lo h = ground (
  arith,
  bit_and_step (hi * 2 ^ suc k + lo) (2 ^ suc k - 1),
  shifted hi k,
  pow-suc 2 k,
  one-le-pow k 2,
  and_fields k hi (lo / 2) (omega (arith, pow-suc 2 k)),
)

-- A mask of k low bits takes the remainder.
pub bit_and-low_mask : (k w : ℕ) → bit_and w (2 ^ k - 1) ≡ w % 2 ^ k
bit_and-low_mask k w = ground (arith, one-le-pow k 2, and_fields k (w / 2 ^ k) (w % 2 ^ k))
