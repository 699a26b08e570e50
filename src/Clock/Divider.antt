-- ===== src/Clock/Divider.antt =====
-- sdhci.c: the three `for` loops of sdhci_calc_clk that look for a divider, and what they find.
use linux_sdhci_rtt.Base.{
  ℕ, zero, suc, ◌+◌, ◌*◌, ◌/◌, ◌≤◌, ◌<◌, ◌≡◌, ◌⊎◌, inl, inr, true, false, ltb, leb, tests, arith,
  Bool-cases,
}
use linux_sdhci_rtt.Regs.{max_div_spec_200, max_div_spec_300}

-- `for (; div < limit; div += step) if (clk / div <= clock) break;` from `div`, with fuel.
linear_search : (step limit clk clock : ℕ) → ℕ → ℕ → ℕ
linear_search step limit clk clock zero div = div
linear_search step limit clk clock (suc fuel) div = elim (ltb div limit) [
  | false ↦ div
  | true ↦ elim (leb (clk / div) clock) [
    | true ↦ div
    | false ↦ linear_search step limit clk clock fuel (div + step)
  ]
]

-- `for (; div < limit; div *= 2) if (clk / div <= clock) break;`
unfoldable pub doubling_search : (limit clk clock : ℕ) → ℕ → ℕ → ℕ
doubling_search limit clk clock zero div = div
doubling_search limit clk clock (suc fuel) div = elim (ltb div limit) [
  | false ↦ div
  | true ↦ elim (leb (clk / div) clock) [
    | true ↦ div
    | false ↦ doubling_search limit clk clock fuel (div * 2)
  ]
]

-- The programmable clock: `for (div = 1; div <= 1024; div++)`.
unfoldable pub prog_div : ℕ → ℕ → ℕ
unfolding linear_search
prog_div clk clock = linear_search 1 1025 clk clock 1024 1

-- `for (div = 2; div < SDHCI_MAX_DIV_SPEC_300; div += 2)`.
unfoldable pub even_div : ℕ → ℕ → ℕ
unfolding linear_search
even_div clk clock = linear_search 2 max_div_spec_300 clk clock 1022 2

-- `for (div = 1; div < SDHCI_MAX_DIV_SPEC_200; div *= 2)`.
unfoldable pub pow_div : ℕ → ℕ → ℕ
unfolding doubling_search
pow_div clk clock = doubling_search max_div_spec_200 clk clock 8 1

-- What a search from `div` found: a divider that is slow enough or past the limit, before which
-- none was slow enough.
pub record Found (step limit clk clock div r : ℕ) : Type 0 where
  pub rounds : ℕ
  pub reached : r ≡ div + rounds * step
  pub stopped : (clk / r ≤ clock) ⊎ (limit ≤ r)
  pub capped : r < limit + step
  pub least : (k : ℕ) → div + k * step < r → clock < clk / (div + k * step)

later_Found :
    (step limit clk clock div r : ℕ)
    → clock < clk / div
    → Found step limit clk clock (div + step) r
    → Found step limit clk clock div r
later_Found step limit clk clock div r miss f = record {
  rounds = suc f.rounds;
  reached = omega (arith, f.reached);
  stopped = f.stopped;
  capped = f.capped;
  least = least;
}
  where
    shift : (k : ℕ) → div + suc k * step ≡ div + step + k * step
    shift k = omega arith

    start : div + 0 * step ≡ div
    start = omega arith

    least : (k : ℕ) → div + k * step < r → clock < clk / (div + k * step)
    least zero h = rw start miss
    least (suc k) h = rw (shift k) (f.least k (rw (shift k) at h))

-- Enough fuel for the distance to the limit.
linear_search-Found :
    (step limit clk clock fuel div : ℕ)
    → div < limit + step
    → limit ≤ div + fuel * step
    → Found step limit clk clock div (linear_search step limit clk clock fuel div)
unfolding linear_search
linear_search-Found step limit clk clock zero div near h = record {
  rounds = 0;
  reached = omega arith;
  stopped = inr (omega arith);
  capped = near;
  least = λ k lt. absurd (omega arith);
}
linear_search-Found step limit clk clock (suc fuel) div near h = elim (Bool-cases (ltb div limit)) [
  | inl inside ↦ elim (Bool-cases (leb (clk / div) clock)) [
    | inl fits ↦
        rw (inside, linear_search)
          (rw (fits, linear_search)
            (record {
              rounds = 0;
              reached = omega arith;
              stopped = inl (omega tests);
              capped = near;
              least = λ k lt. absurd (omega arith);
            }))
    | inr slow ↦
        rw (inside, linear_search)
          (rw (slow, linear_search)
            (later_Found step limit clk clock div _ (omega tests) (
              linear_search-Found step limit clk clock fuel (div + step) (omega tests)
                (omega arith))))
  ]
  | inr outside ↦
      rw (outside, linear_search)
        (record {
          rounds = 0;
          reached = omega arith;
          stopped = inr (omega tests);
          capped = near;
          least = λ k lt. absurd (omega arith);
        })
]

pub prog_div-Found : (clk clock : ℕ) → Found 1 1025 clk clock 1 (prog_div clk clock)
unfolding prog_div
prog_div-Found clk clock = linear_search-Found 1 1025 clk clock 1024 1 (omega arith) (omega arith)

pub even_div-Found : (clk clock : ℕ) → Found 2 2046 clk clock 2 (even_div clk clock)
unfolding even_div
even_div-Found clk clock = linear_search-Found 2 2046 clk clock 1022 2 (omega arith) (omega arith)
