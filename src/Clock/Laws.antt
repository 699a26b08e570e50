-- ===== src/Clock/Laws.antt =====
-- sdhci_calc_clk on version 3.00: the clock that it reports and the clock control register.
use linux_sdhci_rtt.Base.{
  ℕ, ◌+◌, ◌*◌, ◌/◌, ◌^◌, ◌≤◌, ◌<◌, ◌≡◌, ap, ◌⊎◌, inl, inr, false, leb, if◌then◌else◌, u32, has,
  some, arith, Bool-cases,
}
use linux_sdhci_rtt.Regs.{quirk2_clock_div_zero_broken}
use linux_sdhci_rtt.Clock.{Choice, clock_bits, actual, base_choice}
use linux_sdhci_rtt.Clock.Divider.{even_div, even_div-Found}
use linux_sdhci_rtt.Clock.Encoding.{sd_clock, sd_clock-base}

-- What `base_choice` chose, for a controller that can divide by one.
base_choice_fields :
    (quirks2 m clock : ℕ)
    → has quirks2 quirk2_clock_div_zero_broken ≡ false
    → let c = base_choice quirks2 m clock in
      (c.clk ≡ 0)
      × (c.mul ≡ 1)
      × (c.div ≡ c.real_div / 2)
      × (c.real_div ≡ (if leb m clock then 1 else even_div m clock))
unfolding base_choice
base_choice_fields quirks2 m clock whole = ground arith

-- The divider of `base_choice` is 1, or an even number that its halves encode.
base_divider :
    (m clock : ℕ) (r : ℕ)
    → r ≡ (if leb m clock then 1 else even_div m clock)
    → (r ≡ 1) ⊎ ((h : ℕ) × (r ≡ 2 * h) × (1 ≤ h) × (h < 1024))
base_divider m clock r e = elim (Bool-cases (leb m clock)) [
  | inl fast ↦ inl (rw fast at e)
  | inr slow ↦
      let f = even_div-Found m clock in
      inr (
        1 + f.rounds,
        omega (arith, rw slow at e, f.reached),
        omega arith,
        omega (arith, f.reached, f.capped),
      )
]

pub base_exact :
    (m clk_mul : ℕ) (c : Choice)
    → m < 2 ^ 32
    → c.clk ≡ 0
    → c.mul ≡ 1
    → c.div ≡ c.real_div / 2
    → (c.real_div ≡ 1) ⊎ ((h : ℕ) × (c.real_div ≡ 2 * h) × (1 ≤ h) × (h < 1024))
    → actual m c ≡ some (sd_clock m clk_mul (clock_bits c))
unfolding actual
base_exact m clk_mul c small z o d (inl one) =
    ground (arith, sd_clock-base m clk_mul c z (omega arith), fits)
  where
    fits : u32 (m * 1) / 1 ≡ m
    fits = omega arith
base_exact m clk_mul c small z o d (inr (h, e, lo, hi)) = ground (
  arith,
  sd_clock-base m clk_mul c z (omega arith),
  fits,
  ap (λ (t : ℕ). m / t) e,
  ap (λ (t : ℕ). m / (2 * t)) half,
)
  where
    fits : u32 (m * 1) ≡ m
    fits = omega arith

    half : c.div ≡ h
    half = omega arith

module _ (quirks2 m clk_mul clock : ℕ) (small : m < 2 ^ 32)
    (whole : has quirks2 quirk2_clock_div_zero_broken ≡ false) where
  -- For a base clock below 2 ^ 32 Hz on version 3.00, without presets and without the programmable
  -- clock, the clock that the driver reports is the one that the register makes, whatever was
  -- asked for, unless the quirk says that the controller cannot encode the divider 1.
  pub base_choice-exact :
      let c = base_choice quirks2 m clock in actual m c ≡ some (sd_clock m clk_mul (clock_bits c))
  base_choice-exact =
      let c = base_choice quirks2 m clock in
      let (zero_clk, one_mul, halved, chosen) = base_choice_fields quirks2 m clock whole in
      base_exact m clk_mul c small zero_clk one_mul halved (base_divider m clock c.real_div chosen)
