-- ===== src/Base/Fields.antt =====
-- Bit fields of a register: a disjoint `|` is a sum, a low mask is a remainder, and what single
-- bits say after `|`, `&` and `& ~`.
use Prim.Native.Nat.{
  ℕ, zero, suc, ◌+◌, ◌-◌, ◌*◌, ◌/◌, ◌%◌, ◌^◌, ◌≤◌, ◌<◌, min, max, bit_and, bit_or,
}
use mathlib.Core.Path.{◌≡◌, refl, ap, ap₂, sym, ◌∙◌}
use native.Mathlib.Nat.{pow-suc, pow-succ', one-le-pow, div-div-eq-div-mul}
use native.Mathlib.Omega.{arith}
use linux_sdhci_rtt.Base.Tests.{◌==◌}
use linux_sdhci_rtt.Base.Bits.{
  ◌<<<◌, has, bit_or_step, bit_and_step, bit_and-zero, bit_or-zero, zero-bit_or,
}

double_shift : (n k : ℕ) → n * 2 ^ suc k ≡ n * 2 ^ k * 2
double_shift n k = omega (arith, ap (λ (p : ℕ). n * p) (pow-suc 2 k))

-- `|` of words whose high parts do not meet: the low parts are joined on their own.
pub bit_or_low :
    (k q r s : ℕ) → r < 2 ^ k → s < 2 ^ k → bit_or (q * 2 ^ k + r) s ≡ q * 2 ^ k + bit_or r s
bit_or_low zero q zero zero hr hs = omega (arith, bit_or-zero (q * 1 + 0))
bit_or_low zero q zero (suc s) hr hs = absurd (omega arith)
bit_or_low zero q (suc r) s hr hs = absurd (omega arith)
bit_or_low (suc k) q r s hr hs = omega (
  arith,
  bit_or_step (q * 2 ^ suc k + r) s,
  bit_or_step r s,
  double_shift q k,
  ap (λ (t : ℕ). bit_or t (s / 2)) (half q r),
  bit_or_low k q (r / 2) (s / 2) (omega (arith, pow-suc 2 k)) (omega (arith, pow-suc 2 k)),
)
  where
    half : (q r : ℕ) → (q * 2 ^ suc k + r) / 2 ≡ q * 2 ^ k + r / 2
    half q r = omega (arith, double_shift q k)

-- `(hi << k) | lo` is a sum when `lo` fits `k` bits.
pub bit_or_fields : (k hi lo : ℕ) → lo < 2 ^ k → bit_or (hi <<< k) lo ≡ hi * 2 ^ k + lo
bit_or_fields k hi lo small =
    ap (λ (t : ℕ). bit_or t lo) (padded (hi * 2 ^ k))
    ∙ bit_or_low k hi 0 lo (omega arith) small
    ∙ ap (λ (t : ℕ). hi * 2 ^ k + t) (zero-bit_or lo)
  where
    padded : (n : ℕ) → n ≡ n + 0
    padded n = omega arith

-- `(x & m) >> k` is `(x >> k) & (m >> k)`.
pub bit_and_shift : (k a b : ℕ) → bit_and a b / 2 ^ k ≡ bit_and (a / 2 ^ k) (b / 2 ^ k)
bit_and_shift zero a b = omega (arith, ap₂ bit_and (one a) (one b))
  where
    one : (n : ℕ) → n / 2 ^ 0 ≡ n
    one n = omega arith
bit_and_shift (suc k) a b =
    halves (bit_and a b)
    ∙ ap (λ (t : ℕ). t / 2 ^ k) (half a b)
    ∙ bit_and_shift k (a / 2) (b / 2)
    ∙ ap₂ bit_and (sym (halves a)) (sym (halves b))
  where
    halves : (n : ℕ) → n / 2 ^ suc k ≡ n / 2 / 2 ^ k
    halves n = ap (λ (t : ℕ). n / t) (pow-succ' 2 k) ∙ sym (div-div-eq-div-mul n 2 (2 ^ k))

    half : (a b : ℕ) → bit_and a b / 2 ≡ bit_and (a / 2) (b / 2)
    half a b = omega (arith, bit_and_step a b)

bit_or_comm_fuel : (n a b : ℕ) → a + b ≤ n → bit_or a b ≡ bit_or b a
bit_or_comm_fuel zero zero zero h = refl
bit_or_comm_fuel zero zero (suc b) h = absurd (omega arith)
bit_or_comm_fuel zero (suc a) b h = absurd (omega arith)
bit_or_comm_fuel (suc n) zero zero h = refl
bit_or_comm_fuel (suc n) zero (suc b) h = omega (arith, zero-bit_or (suc b), bit_or-zero (suc b))
bit_or_comm_fuel (suc n) (suc a) zero h = omega (arith, zero-bit_or (suc a), bit_or-zero (suc a))
bit_or_comm_fuel (suc n) (suc a) (suc b) h = omega (
  arith,
  bit_or_step (suc a) (suc b),
  bit_or_step (suc b) (suc a),
  bit_or_comm_fuel n (suc a / 2) (suc b / 2) (omega arith),
)

pub bit_or_comm : (a b : ℕ) → bit_or a b ≡ bit_or b a
bit_or_comm a b = bit_or_comm_fuel (a + b) a b (omega arith)

low_mask : (k hi lo : ℕ) → lo < 2 ^ k → bit_and (hi * 2 ^ k + lo) (2 ^ k - 1) ≡ lo
low_mask zero hi lo small = rw bit_and-zero (omega arith)
low_mask (suc k) hi lo small = ground (
  arith,
  low_mask k hi (lo / 2) (omega (arith, pow-suc 2 k)),
  bit_and_step (hi * 2 ^ suc k + lo) (2 ^ suc k - 1),
  one-le-pow k 2,
  double_shift hi k,
  pow-suc 2 k,
)

-- A mask of `k` low bits is the remainder by `2 ^ k`.
pub bit_and_low : (k a : ℕ) → bit_and a (2 ^ k - 1) ≡ a % 2 ^ k
bit_and_low k a = ground (arith, low_mask k (a / 2 ^ k) (a % 2 ^ k), one-le-pow k 2)

-- Bit number `k`.
unfoldable pub bit : ℕ → ℕ → ℕ
bit a zero = a % 2
bit a (suc k) = bit (a / 2) k

pub bit-le : (k a : ℕ) → bit a k ≤ 1
unfolding bit
bit-le zero a = omega arith
bit-le (suc k) a = bit-le k (a / 2)

pub bit-zero : (k : ℕ) → bit 0 k ≡ 0
unfolding bit
bit-zero zero = refl
bit-zero (suc k) = bit-zero k

pub bit-bit_or : (k a b : ℕ) → bit (bit_or a b) k ≡ max (bit a k) (bit b k)
unfolding bit
bit-bit_or zero a b = omega (arith, bit_or_step a b)
bit-bit_or (suc k) a b = ap (λ (t : ℕ). bit t k) (half a b) ∙ bit-bit_or k (a / 2) (b / 2)
  where
    half : (a b : ℕ) → bit_or a b / 2 ≡ bit_or (a / 2) (b / 2)
    half a b = omega (arith, bit_or_step a b)

pub bit-bit_and : (k a b : ℕ) → bit (bit_and a b) k ≡ min (bit a k) (bit b k)
unfolding bit
bit-bit_and zero a b = omega (arith, bit_and_step a b)
bit-bit_and (suc k) a b = ap (λ (t : ℕ). bit t k) (half a b) ∙ bit-bit_and k (a / 2) (b / 2)
  where
    half : (a b : ℕ) → bit_and a b / 2 ≡ bit_and (a / 2) (b / 2)
    half a b = omega (arith, bit_and_step a b)

-- A test with a one-bit mask reads that bit.
pub bit_and-pow : (k a : ℕ) → bit_and a (2 ^ k) ≡ bit a k * 2 ^ k
unfolding bit
bit_and-pow zero a = omega (arith, bit_and_step a 1, bit_and-zero (a / 2))
bit_and-pow (suc k) a = omega (
  arith,
  bit_and_step a (2 ^ suc k),
  pow-suc 2 k,
  double_shift (bit (a / 2) k) k,
  ap (λ (t : ℕ). bit_and (a / 2) t) (half k),
  bit_and-pow k (a / 2),
)
  where
    half : (k : ℕ) → 2 ^ suc k / 2 ≡ 2 ^ k
    half k = omega (arith, pow-suc 2 k)

pub has-bit : (k a : ℕ) → has a (2 ^ k) ≡ (bit a k == 1)
unfolding has
has-bit k a = ground (arith, bit_and-pow k a, bit-le k a, one-le-pow k 2, scaled (bit a k))
  where
    scaled : (b : ℕ) → b ≤ 1 → (b * 2 ^ k ≡ 0 → b ≡ 0) × (b ≡ 0 → b * 2 ^ k ≡ 0)
    scaled zero h = (λ _. refl, λ _. omega arith)
    scaled (suc zero) h = (λ e. absurd (omega (arith, one-le-pow k 2)), λ e. absurd (omega arith))
    scaled (suc (suc b)) h = absurd (omega arith)

-- A low bit of a sum is one of the low part.
pub bit-low : (k j q r : ℕ) → j < k → bit (q * 2 ^ k + r) j ≡ bit r j
unfolding bit
bit-low zero j q r lt = absurd (omega arith)
bit-low (suc k) zero q r lt = omega (arith, ap (λ (p : ℕ). q * p) (pow-suc 2 k))
bit-low (suc k) (suc j) q r lt = ap (λ (t : ℕ). bit t j) half ∙ bit-low k j q (r / 2) (omega arith)
  where
    half : (q * 2 ^ suc k + r) / 2 ≡ q * 2 ^ k + r / 2
    half = omega (arith, ap (λ (p : ℕ). q * p) (pow-suc 2 k))

-- The bits of a word, as they are stored.
pub bit-word : (k j a : ℕ) → j < k → bit (a % 2 ^ k) j ≡ bit a j
bit-word k j a lt = sym (bit-low k j (a / 2 ^ k) (a % 2 ^ k) lt) ∙ ap (λ (t : ℕ). bit t j) whole
  where
    whole : a / 2 ^ k * 2 ^ k + a % 2 ^ k ≡ a
    whole = omega (arith, one-le-pow k 2)
