-- ===== src/Setup.antt =====
-- sdhci.c: __sdhci_read_caps, and what sdhci_setup_host makes of the capabilities for DMA, for the clocks, for the
-- automatic commands and for the tuning.
pub mod Laws
pub mod Sizes
use linux_sdhci_rtt.Base.{
  ℕ, zero, suc, ◌+◌, ◌-◌, ◌*◌, ◌/◌, ◌%◌, ◌^◌, bit_and, bit_or, Bool, true, false, not, ◌&&◌, ◌||◌,
  Option, none, some, ◌==◌, ◌<<<◌, leb, ltb, if◌then◌else◌, has, clear, u32,
}
use linux_sdhci_rtt.Regs.{
  capabilities, capabilities_1, host_version, reset_all, spec_200, spec_300, spec_410,
  quirk_missing_caps, quirk_force_dma, quirk_broken_dma, quirk_broken_adma,
  quirk_cap_clock_base_broken, quirk_multiblock_read_acmd12, quirk_data_timeout_uses_sdclk,
  quirk2_disable_hw_timeout, quirk2_acmd23_broken, can_do_sdma, can_do_adma2, can_64bit,
  can_64bit_v4, use_sdma, use_adma, use_64_bit_dma, auto_cmd12, auto_cmd23, timeout_clk_unit,
  max_div_spec_200, max_div_spec_300, use_sdr50_tuning, sdr50_needs_tuning,
}
use linux_sdhci_rtt.Device.{Device, M, ◌>>=◌, ◌>>◌, ret, get, put, when, readl, readw}
use linux_sdhci_rtt.Reset.{do_reset, do_enable_v4_mode}

-- `host->read_caps`, `host->caps` and `host->caps1`.
pub record Caps : Type 0 where
  pub is_read : Bool
  pub caps : ℕ
  pub caps1 : ℕ

-- The module parameters debug_quirks and debug_quirks2, and the properties sdhci-caps-mask and sdhci-caps of the
-- device tree, 64 bits each.
pub record Board : Type 0 where
  pub debug_quirks : ℕ
  pub debug_quirks2 : ℕ
  pub caps_mask : ℕ
  pub dt_caps : ℕ

-- A register of which the device tree takes bits away and adds others.
unfoldable pub adjusted : ℕ → ℕ → ℕ → ℕ
adjusted value mask more = bit_or (clear 32 value mask) more

abbrev pub or_else : {A : Type 0} → Option A → M A → M A
or_else (some a) m = ret a
or_else none m = m

-- SDHCI_CAPABILITIES or what the caller gives, and SDHCI_CAPABILITIES_1 from version 3.00 on.
unfoldable pub read_words : Board → Option ℕ → Option ℕ → Caps → M Caps
read_words board caps caps1 c = do
  d ← get
  if has d.quirks quirk_missing_caps then ret c else (do
    low ←
        or_else caps
          (do v ← readl capabilities; ret (adjusted v (u32 board.caps_mask) (u32 board.dt_caps)))
    if ltb d.version spec_300 then ret (record c { caps = low }) else (do
      high ← or_else caps1 (do
        v ← readl capabilities_1
        ret (adjusted v (board.caps_mask / 2 ^ 32) (board.dt_caps / 2 ^ 32)))
      ret (record c { caps = low; caps1 = high })))

abbrev pub unless_zero : ℕ → ℕ → ℕ
unless_zero n old = if n == 0 then old else n

unfoldable pub read_caps : Board → Option ℕ → Option ℕ → Option ℕ → Caps → M Caps
read_caps board ver caps caps1 c = if c.is_read then ret c else (do
  d ← get
  put (record d {
    quirks = unless_zero board.debug_quirks d.quirks;
    quirks2 = unless_zero board.debug_quirks2 d.quirks2;
  })
  do_reset reset_all
  e ← get
  when e.v4_mode do_enable_v4_mode
  v ← or_else ver (readw host_version)
  f ← get
  put (record f { version = bit_and v 0xff })
  read_words board caps caps1 (record c { is_read = true }))

unfoldable pub can_64bit_dma : Device → ℕ → Bool
can_64bit_dma d caps =
    if leb spec_410 d.version && d.v4_mode then has caps can_64bit_v4 else has caps can_64bit

-- The flags for DMA, from the capabilities and the quirks.
unfoldable pub dma_flags : Device → ℕ → ℕ
dma_flags d caps =
    let sdma =
      if has d.quirks quirk_force_dma || has caps can_do_sdma
      then bit_or d.flags use_sdma
      else d.flags in
    let sdma_ok =
      if has d.quirks quirk_broken_dma && has sdma use_sdma then clear 32 sdma use_sdma else sdma in
    let adma =
      if leb spec_200 d.version && has caps can_do_adma2
      then bit_or sdma_ok use_adma
      else sdma_ok in
    let adma_ok =
      if has d.quirks quirk_broken_adma && has adma use_adma
      then clear 32 adma use_adma
      else adma in
    if can_64bit_dma d caps then bit_or adma_ok use_64_bit_dma else adma_ok

-- What get_max_clock, get_min_clock, get_timeout_clock and get_max_timeout_count of `struct sdhci_ops` answer, if
-- they are set.
pub record ClockOps : Type 0 where
  pub get_max_clock : Option ℕ
  pub get_min_clock : Option ℕ
  pub get_timeout_clock : Option ℕ
  pub get_max_timeout_count : Option ℕ

-- The base clock in the capabilities.
unfoldable pub caps_clock : ℕ → ℕ → ℕ
caps_clock version caps =
    (if leb spec_300 version then caps / 2 ^ 8 % 2 ^ 8 else caps / 2 ^ 8 % 2 ^ 6) * 1000000

-- `host->max_clk`. It tells whether the clock is known.
unfoldable pub setup_base_clock : ClockOps → ℕ → M Bool
setup_base_clock ops caps = do
  d ← get
  let clk = caps_clock d.version caps
  put (record d { max_clk = clk })
  if clk == 0 || has d.quirks quirk_cap_clock_base_broken
      then (elim ops.get_max_clock [
        | none ↦ ret false
        | some n ↦ put (record d { max_clk = n }) >> ret true
      ])
      else ret true

-- `host->clk_mul`.
unfoldable pub multiplier : ℕ → ℕ
multiplier caps1 = let n = caps1 / 2 ^ 16 % 2 ^ 8 in if n == 0 then 0 else n + 1

-- `mmc->f_min` and `mmc->f_max`.
pub record Limits : Type 0 where
  pub f_min : ℕ
  pub f_max : ℕ

unfoldable pub limits_of : Device → Option ℕ → Limits
limits_of d (some min) = record { f_min = min; f_max = d.max_clk }
limits_of d none =
    if leb spec_300 d.version
    then record {
      f_min = d.max_clk / max_div_spec_300;
      f_max = if d.clk_mul == 0 then d.max_clk else u32 (d.max_clk * d.clk_mul);
    }
    else record { f_min = d.max_clk / max_div_spec_200; f_max = d.max_clk }

-- A limit that the board has set stays if it is lower.
unfoldable pub limits : Device → ClockOps → ℕ → Limits
limits d ops f_max =
    let l = limits_of d ops.get_min_clock in
    record l { f_max = if f_max == 0 || ltb l.f_max f_max then l.f_max else f_max }

-- The clock of the time-out in kHz, before the board's is preferred; `none` is -ENODEV.
unfoldable pub caps_timeout_clk : ClockOps → ℕ → Option ℕ
caps_timeout_clk ops caps =
    let n = (if has caps timeout_clk_unit then caps % 2 ^ 6 * 1000 else caps % 2 ^ 6) in
    if n == 0
    then elim ops.get_timeout_clock [ none ↦ none | some hz ↦ some (u32 (hz + 999) / 1000) ]
    else some n

abbrev pub count_or : Option ℕ → ℕ
count_or none = 2 ^ 27
count_or (some n) = n

abbrev pub is_none : Option ℕ → Bool
is_none none = true
is_none (some n) = false

-- `host->timeout_clk` and `mmc->max_busy_timeout`. It tells whether the clock is known.
unfoldable pub setup_timeout : ClockOps → ℕ → M Bool
setup_timeout ops caps = do
  d ← get
  known ←
      (if has d.quirks quirk_data_timeout_uses_sdclk
        then ret true
        else (elim (caps_timeout_clk ops caps) [
          | none ↦ ret false
          | some n ↦ (do
            let clk = unless_zero d.timeout_clk n
            put (record d {
              timeout_clk = clk;
              max_busy_timeout = count_or ops.get_max_timeout_count / clk;
            })
            ret true)
        ]))
  e ← get
  when (known && has e.quirks2 quirk2_disable_hw_timeout && is_none ops.get_max_timeout_count)
      (put (record e { max_busy_timeout = 0 }))
  ret known

-- The base clock, the multiplier, the limits and the time-out; `none` is -ENODEV.
unfoldable pub setup_clocks : ClockOps → Caps → ℕ → M (Option Limits)
setup_clocks ops c f_max = do
  based ← setup_base_clock ops c.caps
  if not based then ret none else (do
    d ← get
    put (record d { clk_mul = multiplier c.caps1 })
    e ← get
    known ← setup_timeout ops c.caps
    ret (if known then some (limits e ops f_max) else none))

-- "For v3 mode, Auto-CMD23 stuff only works in ADMA or PIO. For v4 mode, SDMA may use Auto-CMD23 as well."
unfoldable pub auto_cmd_flags : Device → ℕ
auto_cmd_flags d =
    let flags =
      if has d.quirks quirk_multiblock_read_acmd12 then bit_or d.flags auto_cmd12 else d.flags in
    if leb spec_300 d.version
      && (has flags use_adma || not (has flags use_sdma) || d.v4_mode)
      && not (has d.quirks2 quirk2_acmd23_broken)
    then bit_or flags auto_cmd23
    else flags

-- `host->tuning_count`: 2 ^ (n - 1), or 0 where the timer is off.
unfoldable pub tuning_count_of : ℕ → ℕ
tuning_count_of caps1 = let n = caps1 / 2 ^ 8 % 2 ^ 4 in if n == 0 then 0 else 1 <<< (n - 1)

-- `host->tuning_mode`, and whether SDR50 needs the tuning.
unfoldable pub setup_tuning : ℕ → M (Unit {0})
setup_tuning caps1 = do
  d ← get
  put (record d {
    flags = if has caps1 use_sdr50_tuning then bit_or d.flags sdr50_needs_tuning else d.flags;
    tuning_mode = caps1 / 2 ^ 14 % 2 ^ 2;
  })
