-- ===== src/Clock/Powers.antt =====
-- sdhci_calc_clk before version 3.00.
use native.Mathlib.Nat.{pow-suc}
use linux_sdhci_rtt.Base.{
  ℕ, zero, suc, ◌+◌, ◌*◌, ◌/◌, ◌^◌, ◌≤◌, ◌<◌, ◌≡◌, Bool, true, false, refl, ap, subst, ◌⊎◌, inl,
  inr, some, ltb, leb, arith, tests, Bool-cases,
}
use linux_sdhci_rtt.Clock.{v2_choice, actual, clock_bits}
use linux_sdhci_rtt.Clock.Divider.{doubling_search, pow_div}
use linux_sdhci_rtt.Clock.Encoding.{sd_clock}
use linux_sdhci_rtt.Clock.Laws.{base_exact}

pow_le : (n k j : ℕ) → j ≤ k → k ≤ n → 2 ^ j ≤ 2 ^ k
pow_le n zero zero h l = omega arith
pow_le n zero (suc j) h l = absurd (omega arith)
pow_le n (suc k) zero h l = omega (arith, pow-suc 2 k, pow_le k k zero (omega arith) (omega arith))
pow_le n (suc k) (suc j) h l =
    omega (arith, pow-suc 2 k, pow-suc 2 j, pow_le k k j (omega arith) (omega arith))

-- The power of two that a search has found: slow enough, and the least such.
record FoundPower (m clock j r : ℕ) : Type 0 where
  fits : m / r ≤ clock
  least : (k : ℕ) → j ≤ k → m / 2 ^ k ≤ clock → r ≤ 2 ^ k
  exponent : ℕ
  power : r ≡ 2 ^ exponent
  small : exponent ≤ 8

found_here : (m clock j : ℕ) → j ≤ 8 → m / 2 ^ j ≤ clock → FoundPower m clock j (2 ^ j)
found_here m clock j le fits = record {
  fits = fits;
  least = λ k above _. pow_le k k j above (omega arith);
  exponent = j;
  power = refl;
  small = le;
}

found_later :
    (m clock j r : ℕ) → clock < m / 2 ^ j → FoundPower m clock (suc j) r → FoundPower m clock j r
found_later m clock j r miss f = record {
  fits = f.fits;
  least = least;
  exponent = f.exponent;
  power = f.power;
  small = f.small;
}
  where
    least : (k : ℕ) → j ≤ k → m / 2 ^ k ≤ clock → r ≤ 2 ^ k
    least k above fits = elim (Bool-cases (leb k j)) [
      | inl top ↦ absurd (omega (tests, ap (λ (n : ℕ). m / 2 ^ n) (same top)))
      | inr more ↦ f.least k (omega tests) fits
    ]
      where
        same : leb k j ≡ true → k ≡ j
        same top = omega tests

eight : (n : ℕ) → n ≡ 8 → 8 ≡ n
eight n e = omega arith

doubling_search-FoundPower :
    (m clock fuel j : ℕ)
    → j + fuel ≡ 8
    → m / 256 ≤ clock
    → FoundPower m clock j (doubling_search 256 m clock fuel (2 ^ j))
unfolding doubling_search
doubling_search-FoundPower m clock zero j e reach =
    found_here m clock j (omega arith)
      (omega (arith, ap (λ (n : ℕ). m / 2 ^ n) (eight j (omega arith))))
doubling_search-FoundPower m clock (suc fuel) j e reach =
    rw (below j (omega arith), doubling_search)
      (tried (leb (m / 2 ^ j) clock) refl
        (doubling_search-FoundPower m clock fuel (suc j) (omega arith) reach))
  where
    below : (n : ℕ) → n ≤ 7 → ltb (2 ^ n) 256 ≡ true
    below n le = grind (tests, pow_le 7 7 n le (omega arith))

    tried :
        (b : Bool)
        → leb (m / 2 ^ j) clock ≡ b
        → FoundPower m clock (suc j) (doubling_search 256 m clock fuel (2 ^ suc j))
        → FoundPower m clock j
            (elim b [ true ↦ 2 ^ j | false ↦ doubling_search 256 m clock fuel (2 ^ j * 2) ])
    tried true fits later = found_here m clock j (omega arith) (omega tests)
    tried false miss later =
        found_later m clock j (doubling_search 256 m clock fuel (2 ^ j * 2)) (omega tests) (
          subst (λ d. FoundPower m clock (suc j) (doubling_search 256 m clock fuel d))
            (omega (arith, pow-suc 2 j)) later)

halved_power :
    (n r : ℕ) → n ≤ 8 → r ≡ 2 ^ n → (r ≡ 1) ⊎ ((h : ℕ) × (r ≡ 2 * h) × (1 ≤ h) × (h < 1024))
halved_power zero r le e = inl e
halved_power (suc n) r le e = inr (
  2 ^ n,
  omega (arith, pow-suc 2 n, e),
  pow_le n n 0 (omega arith) (omega arith),
  omega (arith, pow_le 7 7 n (omega arith) (omega arith)),
)

-- Before version 3.00, for a base clock below 2 ^ 32 Hz that the divider 256 slows down enough: the
-- clock that the driver reports is the one that the register makes; it does not exceed the request;
-- and the divider is the least power of two of which this is so.
pub v2_choice-best :
    (m clk_mul clock : ℕ)
    → m < 2 ^ 32
    → m / 256 ≤ clock
    → let c = v2_choice m clock in
      (actual m c ≡ some (sd_clock m clk_mul (clock_bits c)))
      × (m / c.real_div ≤ clock)
      × ((k : ℕ) → m / 2 ^ k ≤ clock → c.real_div ≤ 2 ^ k)
unfolding v2_choice pow_div
v2_choice-best m clk_mul clock small reach =
    let c = v2_choice m clock in
    let f = doubling_search-FoundPower m clock 8 0 refl reach in
    (
      base_exact m clk_mul c small refl refl refl
          (halved_power f.exponent c.real_div f.small f.power),
      f.fits,
      λ k fits. f.least k (omega arith) fits,
    )
