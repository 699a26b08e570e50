-- ===== src/Clock.antt =====
-- sdhci.c: sdhci_get_preset_value, sdhci_calc_clk, sdhci_enable_clk, sdhci_set_clock.
pub mod Divider
pub mod Encoding
pub mod Laws
pub mod Best
pub mod Powers
pub mod Enable
use linux_sdhci_rtt.Base.{
  ℕ, zero, suc, ◌+◌, ◌-◌, ◌*◌, ◌/◌, ◌%◌, max, bit_and, bit_or, Bool, true, false, not, ◌&&◌, ◌||◌,
  Option, none, some, ltb, leb, ◌==◌, if◌then◌else◌, u16, u32, ◌<<<◌, ◌>>>◌, has, clear,
}
use linux_sdhci_rtt.Regs.{
  spec_300, spec_410, clock_control, preset_for_sdr12, preset_for_sdr25, preset_for_sdr50,
  preset_for_sdr104, preset_for_ddr50, preset_for_hs400, preset_clkgen_sel, preset_sdclk_freq_mask,
  prog_clock_mode, quirk2_clock_div_zero_broken, div_mask, div_hi_mask, div_mask_len, divider_shift,
  divider_hi_shift, clock_int_en, clock_int_stable, clock_pll_en, clock_card_en,
}
use linux_sdhci_rtt.Device.{
  Device, Timing, M, ◌>>=◌, ◌>>◌, ret, get, put, readw, writew, ktime_get, ktime_add_ms,
  ktime_after,
}
use Divider.{prog_div, even_div, pow_div}

-- The `switch` over `host->timing`: the preset register that is read.
unfoldable pub preset_reg : Timing → ℕ
preset_reg Timing.uhs_sdr12 = preset_for_sdr12
preset_reg Timing.uhs_sdr25 = preset_for_sdr25
preset_reg Timing.uhs_sdr50 = preset_for_sdr50
preset_reg Timing.uhs_sdr104 = preset_for_sdr104
preset_reg Timing.mmc_hs200 = preset_for_sdr104
preset_reg Timing.uhs_ddr50 = preset_for_ddr50
preset_reg Timing.mmc_ddr52 = preset_for_ddr50
preset_reg Timing.mmc_hs400 = preset_for_hs400
preset_reg _ = preset_for_sdr12

unfoldable pub get_preset_value : M ℕ
unfolding preset_reg
get_preset_value = do d ← get; readw (preset_reg d.timing)

-- What stands in `clk`, `div`, `real_div` and `clk_mul` at the label `clock_set`.
pub record Choice : Type 0 where
  pub clk : ℕ
  pub div : ℕ
  pub real_div : ℕ
  pub mul : ℕ

-- The preset branch: the controller takes its divider from the preset register.
unfoldable pub preset_choice : ℕ → ℕ → ℕ → Choice
preset_choice clk_mul clk pre_val =
    let div = bit_and pre_val preset_sdclk_freq_mask in
    if not (clk_mul == 0) && has pre_val preset_clkgen_sel
    then record { clk = prog_clock_mode; div = div; real_div = div + 1; mul = clk_mul }
    else record { clk = clk; div = div; real_div = max 1 (div <<< 1); mul = 1 }

-- Version 3.00 divides the base clock by an even number.
unfoldable pub base_choice : ℕ → ℕ → ℕ → Choice
base_choice quirks2 max_clk clock =
    let real_div = if leb max_clk clock then 1 else even_div max_clk clock in
    let div = real_div >>> 1 in
    record {
      clk = 0;
      div =
          if has quirks2 quirk2_clock_div_zero_broken && div == 0 && leb max_clk 25000000
          then 1
          else div;
      real_div = real_div;
      mul = 1;
    }

-- Version 3.00 without presets: the programmable clock if it can be slow enough.
unfoldable pub v3_choice : ℕ → ℕ → ℕ → ℕ → Choice
unfolding base_choice
v3_choice quirks2 max_clk clk_mul clock =
    let div = prog_div (u32 (max_clk * clk_mul)) clock in
    if clk_mul == 0
    then base_choice quirks2 max_clk clock
    else if leb (u32 (max_clk * clk_mul) / div) clock
    then record { clk = prog_clock_mode; div = div - 1; real_div = div; mul = clk_mul }
    else base_choice quirks2 max_clk clock

-- Version 2.00 divides by a power of two.
unfoldable pub v2_choice : ℕ → ℕ → Choice
v2_choice max_clk clock =
    let div = pow_div max_clk clock in record { clk = 0; div = div >>> 1; real_div = div; mul = 1 }

-- `*actual_clock` is written unless `real_div` is 0.
unfoldable pub actual : ℕ → Choice → Option ℕ
actual max_clk c = if c.real_div == 0 then none else some (u32 (max_clk * c.mul) / c.real_div)

-- The divider bits of the clock control register.
unfoldable pub clock_bits : Choice → ℕ
clock_bits c = u16 (
    bit_or (bit_or c.clk ((bit_and c.div div_mask) <<< divider_shift))
      (((bit_and c.div div_hi_mask) >>> div_mask_len) <<< divider_hi_shift))

unfoldable pub choose : ℕ → M Choice
unfolding preset_choice v3_choice v2_choice get_preset_value
choose clock = do
  d ← get
  if leb spec_300 d.version
      then if d.preset_enabled
        then (do
          clk ← readw clock_control
          pre_val ← get_preset_value
          ret (preset_choice d.clk_mul clk pre_val))
        else ret (v3_choice d.quirks2 d.max_clk d.clk_mul clock)
      else ret (v2_choice d.max_clk clock)

unfoldable pub calc_clk : ℕ → M (ℕ × Option ℕ)
unfolding choose clock_bits actual
calc_clk clock = do d ← get; c ← choose clock; ret (clock_bits c, actual d.max_clk c)
