-- ===== src/Clock/Best.antt =====
-- sdhci_calc_clk: the choice of a divider of the base clock and of the programmable clock.
use native.Mathlib.Nat.{div-le_self, div-mul-le_self, le-div_iff_mul-le}
use linux_sdhci_rtt.Base.{
  ℕ, ◌+◌, ◌-◌, ◌*◌, ◌/◌, ◌≤◌, ◌<◌, ◌≡◌, refl, ap, ◌∙◌, ◌≢◌, ◌⊎◌, inl, inr, u32, some, arith,
}
use linux_sdhci_rtt.Regs.{prog_clock_mode}
use linux_sdhci_rtt.Clock.{Choice, clock_bits, actual, base_choice, v3_choice}
use linux_sdhci_rtt.Clock.Divider.{Found, prog_div, even_div, prog_div-Found, even_div-Found}
use linux_sdhci_rtt.Clock.Encoding.{sd_clock, sd_clock-prog}

-- The dividers of the base clock on version 3.00: 1 and the even numbers.
abbrev pub IsDivider : ℕ → Type 0
IsDivider d = (d ≡ 1) ⊎ ((k : ℕ) × (d ≡ 2 + k * 2))

slower : (m : ℕ) {d e : ℕ} → 0 < d → d ≤ e → m / e ≤ m / d
slower m {d} {e} pos h = (le-div_iff_mul-le pos).1 (grind (arith, div-mul-le_self m e))

real_div-cases :
    (quirks2 m clock : ℕ)
    → let r = (base_choice quirks2 m clock).real_div in
      ((m ≤ clock) × (r ≡ 1)) ⊎ ((clock < m) × (r ≡ even_div m clock))
unfolding base_choice
real_div-cases quirks2 m clock = ground arith

best_from :
    (m clock d r : ℕ)
    → m / 2046 ≤ clock
    → IsDivider d
    → m / d ≤ clock
    → clock < m
    → Found 2 2046 m clock 2 r
    → (m / r ≤ clock) × (m / d ≤ m / r)
best_from m clock d r reachable (inl e) fits slow f =
    absurd (omega (arith, ap (λ (t : ℕ). m / t) e))
best_from m clock d r reachable (inr (k, e)) fits slow f =
    (within f.stopped, slower m (omega (arith, f.reached)) (omega (arith, earlier)))
  where
    within : (m / r ≤ clock) ⊎ (2046 ≤ r) → m / r ≤ clock
    within (inl h) = h
    within (inr h) = omega (arith, slower m {d = 2046} {e = r} (omega arith) h)

    earlier : d < r → ⊥
    earlier h = omega (arith, f.least k (omega arith), ap (λ (t : ℕ). m / t) e)

-- If the divider 2046 reaches the request, the chosen divider of the base clock gives a clock that
-- does not exceed the request, and no divider, 1 or an even number, that does not exceed it gives
-- a faster one.
pub base_choice-best :
    (quirks2 m clock d : ℕ)
    → m / 2046 ≤ clock
    → IsDivider d
    → m / d ≤ clock
    → let r = (base_choice quirks2 m clock).real_div in (m / r ≤ clock) × (m / d ≤ m / r)
base_choice-best quirks2 m clock d reachable div fits = elim (real_div-cases quirks2 m clock) [
  | inl (fast, e) ↦ rw e (omega arith, omega (arith, div-le_self m d))
  | inr (slow, e) ↦ rw e (best_from m clock d _ reachable div fits slow (even_div-Found m clock))
]

v3_choice_prog :
    (quirks2 m clk_mul clock : ℕ)
    → clk_mul ≢ 0
    → let div = prog_div (u32 (m * clk_mul)) clock in
      u32 (m * clk_mul) / div ≤ clock
      → v3_choice quirks2 m clk_mul clock
        ≡ record { clk = prog_clock_mode; div = div - 1; real_div = div; mul = clk_mul }
unfolding v3_choice
v3_choice_prog quirks2 m clk_mul clock used h = ground arith

-- The choice of the programmable clock, by what the search found.
prog-Found :
    (clk clock : ℕ) {r : ℕ}
    → Found 1 1025 clk clock 1 r
    → (clk / 1024 ≤ clock → (r ≤ 1024) × (1 ≤ r) × (clk / r ≤ clock))
      × (clock < clk / 1024 → clk / 1025 ≤ clock → r ≡ 1025)
prog-Found clk clock {r} f = (reach, miss)
  where
    found : (clk / r ≤ clock) ⊎ (1025 ≤ r) → r ≤ 1024 → clk / r ≤ clock
    found (inl h) lt = h
    found (inr h) lt = absurd (omega arith)

    small : clk / 1024 ≤ clock → 1024 < r → ⊥
    small h lt = omega (arith, f.least 1023 (omega arith))

    reach : clk / 1024 ≤ clock → (r ≤ 1024) × (1 ≤ r) × (clk / r ≤ clock)
    reach h =
        let le : r ≤ 1024 = omega (arith, small h) in
        (le, omega (arith, f.reached), found f.stopped le)

    past : clock < clk / 1024 → (clk / r ≤ clock) ⊎ (1025 ≤ r) → r ≤ 1024 → ⊥
    past h (inl fits) le =
        omega (arith, slower clk {d = r} {e = 1024} (omega (arith, f.reached)) le)
    past h (inr far) le = omega arith

    miss : clock < clk / 1024 → clk / 1025 ≤ clock → r ≡ 1025
    miss h k = omega (arith, f.capped, past h f.stopped)

module _ (quirks2 m clk_mul clock : ℕ) (used : clk_mul ≢ 0) where
  -- With a programmable clock (a multiplier that is not 0) that the divider 1024 slows down
  -- enough, the reported clock is the one that the register makes, and it does not exceed the
  -- request.
  pub v3_choice-prog_exact :
      u32 (m * clk_mul) / 1024 ≤ clock
      → let c = v3_choice quirks2 m clk_mul clock in
        (actual m c ≡ some (sd_clock m clk_mul (clock_bits c)))
        × (sd_clock m clk_mul (clock_bits c) ≤ clock)
  v3_choice-prog_exact h =
      let r = prog_div (u32 (m * clk_mul)) clock in
      let (le, pos, fits) =
        (prog-Found (u32 (m * clk_mul)) clock (prog_div-Found (u32 (m * clk_mul)) clock)).0 h in
      rw (v3_choice_prog quirks2 m clk_mul clock used fits)
        (exact r le pos, omega (arith, fits, reading r le pos))
    where
      chosen : ℕ → Choice
      chosen r = record { clk = prog_clock_mode; div = r - 1; real_div = r; mul = clk_mul }

      reading :
          (r : ℕ)
          → r ≤ 1024
          → 1 ≤ r
          → sd_clock m clk_mul (clock_bits (chosen r)) ≡ u32 (m * clk_mul) / r
      reading r le pos =
          sd_clock-prog m clk_mul (chosen r) refl
          ∙ ap (λ (t : ℕ). u32 (m * clk_mul) / t) (omega arith)

      exact :
          (r : ℕ)
          → r ≤ 1024
          → 1 ≤ r
          → actual m (chosen r) ≡ some (sd_clock m clk_mul (clock_bits (chosen r)))
      exact r le pos = unfold actual in ground (arith, reading r le pos)

  -- With a programmable clock (a multiplier that is not 0) and a request that the divider 1025
  -- reaches and 1024 does not, the driver reports the clock divided by 1025, and the register
  -- makes the undivided clock.
  pub v3_choice-prog_overrun :
      clock < u32 (m * clk_mul) / 1024
      → u32 (m * clk_mul) / 1025 ≤ clock
      → let c = v3_choice quirks2 m clk_mul clock in
        (actual m c ≡ some (u32 (m * clk_mul) / 1025))
        × (sd_clock m clk_mul (clock_bits c) ≡ u32 (m * clk_mul))
  v3_choice-prog_overrun h k =
      let r = prog_div (u32 (m * clk_mul)) clock in
      let e =
        (prog-Found (u32 (m * clk_mul)) clock (prog_div-Found (u32 (m * clk_mul)) clock)).1 h k in
      rw (v3_choice_prog quirks2 m clk_mul clock used (rw e k))
        (rw e (unfold actual in refl, sd_clock-prog m clk_mul _ refl ∙ omega arith))
