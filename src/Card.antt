-- ===== src/Card.antt =====
-- sdhci.c: sdhci_set_bus_width, sdhci_set_uhs_signaling, sdhci_check_ro and sdhci_get_ro. The platforms
-- set no `ops->get_ro`, and mmc_can_gpio_ro of the port says no. `caps8` is the capability MMC_CAP_8_BIT_DATA.
pub mod Laws
use linux_sdhci_rtt.Base.{
  ℕ, zero, suc, ◌+◌, bit_or, Bool, true, false, not, ◌&&◌, ◌||◌, if◌then◌else◌, has, clear, ltb,
  ◌==◌,
}
use linux_sdhci_rtt.Regs.{
  host_control, host_control2, ctrl_4bitbus, ctrl_8bitbus, ctrl_uhs_mask, ctrl_uhs_sdr12,
  ctrl_uhs_sdr25, ctrl_uhs_sdr50, ctrl_uhs_sdr104, ctrl_uhs_ddr50, ctrl_hs400, present_state,
  write_protect, device_dead, quirk_inverted_write_protect, quirk_unstable_ro_detect,
}
use linux_sdhci_rtt.Device.{
  Device, Timing, M, ◌>>=◌, ◌>>◌, ret, get, readl, readw, readb, writeb, writew,
}

-- The width of the data bus: MMC_BUS_WIDTH_1, _4 and _8.
pub data Lines : Type 0 where
  one four eight : Lines

-- The value of the control register for a width.
unfoldable pub width_bits : Bool → Lines → ℕ → ℕ
width_bits caps8 Lines.eight ctrl = bit_or (clear 8 ctrl ctrl_4bitbus) ctrl_8bitbus
width_bits caps8 Lines.four ctrl =
    bit_or (if caps8 then clear 8 ctrl ctrl_8bitbus else ctrl) ctrl_4bitbus
width_bits caps8 Lines.one ctrl =
    clear 8 (if caps8 then clear 8 ctrl ctrl_8bitbus else ctrl) ctrl_4bitbus

unfoldable pub set_bus_width : Bool → Lines → M (Unit {0})
unfolding width_bits
set_bus_width caps8 width = do
  ctrl ← readb host_control
  writeb (width_bits caps8 width ctrl) host_control

-- The bus speed mode of a timing; the other timings select none.
unfoldable pub uhs_mode : Timing → ℕ
uhs_mode Timing.mmc_hs200 = ctrl_uhs_sdr104
uhs_mode Timing.uhs_sdr104 = ctrl_uhs_sdr104
uhs_mode Timing.uhs_sdr12 = ctrl_uhs_sdr12
uhs_mode Timing.uhs_sdr25 = ctrl_uhs_sdr25
uhs_mode Timing.uhs_sdr50 = ctrl_uhs_sdr50
uhs_mode Timing.uhs_ddr50 = ctrl_uhs_ddr50
uhs_mode Timing.mmc_ddr52 = ctrl_uhs_ddr50
uhs_mode Timing.mmc_hs400 = ctrl_hs400
uhs_mode _ = 0

unfoldable pub set_uhs_signaling : Timing → M (Unit {0})
unfolding uhs_mode
set_uhs_signaling timing = do
  ctrl_2 ← readw host_control2
  writew (bit_or (clear 16 ctrl_2 ctrl_uhs_mask) (uhs_mode timing)) host_control2

abbrev inverted_if : Bool → Bool → Bool
inverted_if true b = not b
inverted_if false b = b

unfoldable pub check_ro : M Bool
check_ro = do
  d ← get
  if has d.flags device_dead
      then ret (inverted_if (has d.quirks quirk_inverted_write_protect) false)
      else (do
        state ← readl present_state
        ret (
            inverted_if (has d.quirks quirk_inverted_write_protect)
              (not (has state write_protect))))

-- SAMPLE_COUNT.
abbrev pub sample_count : ℕ
sample_count = 5

-- `samples` more rounds, after `ro_count` that found the card read-only.
unfoldable pub sample_ro : ℕ → ℕ → M Bool
sample_ro zero ro_count d = (false, d)
sample_ro (suc samples) ro_count d =
    let (ro, d1) = check_ro d in
    elim ro [
      | true ↦ elim (ltb 2 (ro_count + 1)) [
        | true ↦ (true, d1)
        | false ↦ sample_ro samples (ro_count + 1) d1
      ]
      | false ↦ sample_ro samples ro_count d1
    ]

unfoldable pub get_ro : M Bool
unfolding check_ro sample_ro
get_ro = do
  d ← get
  if has d.quirks quirk_unstable_ro_detect then sample_ro sample_count 0 else check_ro
