-- ===== src/Clock/Encoding.antt =====
-- The divider bits of the clock control register, read as the controller specification reads them.
use linux_sdhci_rtt.Base.{
  ℕ, ◌+◌, ◌*◌, ◌/◌, ◌%◌, ◌^◌, ◌<◌, ◌≡◌, refl, ap, ◌∙◌, bit_and, bit_or, true, false, ◌==◌,
  if◌then◌else◌, u32, ◌>>>◌, has, bit, has-bit, bit_and_low, bit_and_shift, bit_or_fields,
  bit_or_low, bit_or_comm, arith,
}
use linux_sdhci_rtt.Regs.{div_mask, div_hi_mask, prog_clock_mode}
use linux_sdhci_rtt.Clock.{Choice, clock_bits}

-- The ten bits of the divider: bits 15 to 8, and above them bits 7 and 6.
unfoldable pub divider_field : ℕ → ℕ
divider_field clk = (clk >>> 8) % 256 + (clk >>> 6) % 4 * 256

-- The frequency that the controller makes of a base clock and a multiplier.
unfoldable pub sd_clock : ℕ → ℕ → ℕ → ℕ
sd_clock max_clk clk_mul clk =
    if has clk prog_clock_mode
    then u32 (max_clk * clk_mul) / (divider_field clk + 1)
    else if divider_field clk == 0
    then max_clk
    else max_clk / (2 * divider_field clk)

low_part : (div : ℕ) → bit_and div div_mask ≡ div % 256
low_part div = bit_and_low 8 div

high_part : (div : ℕ) → bit_and div div_hi_mask / 2 ^ 8 ≡ div / 2 ^ 8 % 4
high_part div = bit_and_shift 8 div div_hi_mask ∙ bit_and_low 2 (div / 2 ^ 8)

-- The `|`s of the code are sums, if the mode bits stay below the divider's.
pub clock_bits_sum :
    (c : Choice) → c.clk < 64 → clock_bits c ≡ c.div % 256 * 256 + c.div / 256 % 4 * 64 + c.clk
unfolding clock_bits
clock_bits_sum c h =
    rw (low_part c.div, high_part c.div)
      (rw (joined (c.div % 256) (c.div / 2 ^ 8 % 4) (omega arith)) (omega arith))
  where
    joined :
        (a b : ℕ)
        → b < 4
        → bit_or (bit_or c.clk (a * 2 ^ 8)) (b * 2 ^ 6) ≡ a * 256 + (b * 64 + c.clk)
    joined a b lt =
        ap (λ (t : ℕ). bit_or t (b * 2 ^ 6))
          (bit_or_comm c.clk (a * 2 ^ 8) ∙ bit_or_fields 8 a c.clk (omega arith))
        ∙ bit_or_low 8 a c.clk (b * 2 ^ 6) (omega arith) (omega arith)
        ∙ ap (λ (t : ℕ). a * 256 + t) (bit_or_comm c.clk (b * 2 ^ 6) ∙ bit_or_fields 6 b c.clk h)

-- The register holds the divider modulo 2 ^ 10.
pub divider_field-clock_bits :
    (c : Choice) → c.clk < 64 → divider_field (clock_bits c) ≡ c.div % 1024
unfolding divider_field
divider_field-clock_bits c h = rw (clock_bits_sum c h) (omega arith)

-- The mode bit is not touched by the divider.
pub prog_mode-clock_bits :
    (c : Choice) → c.clk < 64 → has (clock_bits c) prog_clock_mode ≡ (c.clk / 32 % 2 == 1)
unfolding bit
prog_mode-clock_bits c h =
    has-bit 5 (clock_bits c) ∙ ap (λ (t : ℕ). t == 1) (rw (clock_bits_sum c h) (omega arith))

-- A base clock divided: by 1, or by twice the field.
pub sd_clock-base :
    (m clk_mul : ℕ) (c : Choice)
    → c.clk ≡ 0
    → c.div < 1024
    → sd_clock m clk_mul (clock_bits c) ≡ (if c.div == 0 then m else m / (2 * c.div))
unfolding sd_clock
sd_clock-base m clk_mul c z lt = rw (mode, field) refl
  where
    mode : has (clock_bits c) prog_clock_mode ≡ false
    mode = prog_mode-clock_bits c (omega arith) ∙ ap (λ (t : ℕ). t / 32 % 2 == 1) z

    field : divider_field (clock_bits c) ≡ c.div
    field = omega (arith, divider_field-clock_bits c (omega arith))

-- The programmable clock: divided by the field and one.
pub sd_clock-prog :
    (m clk_mul : ℕ) (c : Choice)
    → c.clk ≡ prog_clock_mode
    → sd_clock m clk_mul (clock_bits c) ≡ u32 (m * clk_mul) / (c.div % 1024 + 1)
unfolding sd_clock
sd_clock-prog m clk_mul c z = rw (mode, field) refl
  where
    mode : has (clock_bits c) prog_clock_mode ≡ true
    mode = prog_mode-clock_bits c (omega arith) ∙ ap (λ (t : ℕ). t / 32 % 2 == 1) z

    field : divider_field (clock_bits c) ≡ c.div % 1024
    field = divider_field-clock_bits c (omega arith)
