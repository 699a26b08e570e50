-- ===== src/Base/Bits.antt =====
-- Bit operations of C on unsigned words: masks, shifts and casts, with the laws that hold at every
-- value. `bit x k` is bit number `k` of `x`.
use Prim.Native.Nat.{
  ℕ, zero, suc, ◌+◌, ◌-◌, ◌*◌, ◌/◌, ◌%◌, ◌^◌, ◌≤◌, ◌<◌, min, max, bit_and, bit_or, digits, bitwise,
  bit_and-bitwise, bit_or-bitwise,
}
use mathlib.Core.Path.{◌≡◌, refl, ap, ◌∙◌}
use mathlib.Core.Logic.{inl, inr}
use mathlib.Core.Bool.{Bool, not}
use native.Mathlib.Omega.{arith}
use linux_sdhci_rtt.Base.Tests.{◌==◌, leb, Bool-cases, tests}

abbrev pub u8 : ℕ → ℕ
u8 n = n % 2 ^ 8

abbrev pub u16 : ℕ → ℕ
u16 n = n % 2 ^ 16

abbrev pub u32 : ℕ → ℕ
u32 n = n % 2 ^ 32

abbrev pub u64 : ℕ → ℕ
u64 n = n % 2 ^ 64

infixl 75 ◌<<<◌ ◌>>>◌
abbrev pub ◌<<<◌ : ℕ → ℕ → ℕ
x <<< k = x * 2 ^ k

abbrev pub ◌>>>◌ : ℕ → ℕ → ℕ
x >>> k = x / 2 ^ k

-- `x & m` as a truth value.
unfoldable pub has : ℕ → ℕ → Bool
has x m = not (bit_and x m == 0)

-- `x & ~m` in a word of `w` bits, of which `m` is one.
unfoldable pub clear : ℕ → ℕ → ℕ → ℕ
clear w x m = bit_and x (2 ^ w - 1 - m)

-- The digits of an operation: fuel beyond the first operand changes nothing.
module _ (lone : ℕ → ℕ) (join : ℕ → ℕ → ℕ) where
  one_more : (n x y : ℕ) → x ≤ n → digits lone join (suc n) x y ≡ digits lone join n x y
  one_more zero zero y le = refl
  one_more zero (suc x) y le = absurd (omega arith)
  one_more (suc n) zero y le = refl
  one_more (suc n) (suc x) y le =
      ap (λ (t : ℕ). t * 2 + join (suc x % 2) (y % 2))
        (one_more n (suc x / 2) (y / 2) (omega arith))

  at_fuel : (n m x y : ℕ) → n ≡ m → digits lone join n x y ≡ digits lone join m x y
  at_fuel n m x y e = ap (λ (t : ℕ). digits lone join t x y) e

  settled : (n x y : ℕ) → x ≤ n → digits lone join n x y ≡ digits lone join x x y
  settled zero x y le = at_fuel 0 x x y (omega arith)
  settled (suc n) x y le = elim (Bool-cases (leb x n)) [
    | inl below ↦ one_more n x y (omega tests) ∙ settled n x y (omega tests)
    | inr top ↦ at_fuel (suc n) x x y (omega tests)
  ]

  lowest_digit :
      (x y : ℕ)
      → bitwise lone join (suc x) y
        ≡ join (suc x % 2) (y % 2) + 2 * bitwise lone join (suc x / 2) (y / 2)
  lowest_digit x y = omega (arith, settled x (suc x / 2) (y / 2) (omega arith))

pub bit_or_step : (x y : ℕ) → bit_or x y ≡ bit_or (x / 2) (y / 2) * 2 + max (x % 2) (y % 2)
bit_or_step zero y = simp bit_or-bitwise (omega arith)
bit_or_step (suc x) y = simp bit_or-bitwise (omega (arith, lowest_digit (λ t. t) max x y))

pub bit_and_step : (x y : ℕ) → bit_and x y ≡ bit_and (x / 2) (y / 2) * 2 + min (x % 2) (y % 2)
bit_and_step zero y = simp bit_and-bitwise (omega arith)
bit_and_step (suc x) y = simp bit_and-bitwise (omega (arith, lowest_digit (λ t. 0) min x y))

-- With a zero on the right, by a bound on the left operand.
zero_right : (n x : ℕ) → x < n → (bit_and x 0 ≡ 0) × (bit_or x 0 ≡ x)
zero_right zero x lt = absurd (omega arith)
zero_right (suc n) zero lt = (refl, refl)
zero_right (suc n) (suc x) lt =
    let (both, either) = zero_right n (suc x / 2) (omega arith) in
    (omega (arith, bit_and_step (suc x) 0, both), omega (arith, bit_or_step (suc x) 0, either))

pub bit_and-zero : (x : ℕ) → bit_and x 0 ≡ 0
bit_and-zero x = (zero_right (suc x) x (omega arith)).0

pub bit_or-zero : (x : ℕ) → bit_or x 0 ≡ x
bit_or-zero x = (zero_right (suc x) x (omega arith)).1

pub zero-bit_or : (y : ℕ) → bit_or 0 y ≡ y
zero-bit_or y = bit_or-bitwise 0 y
