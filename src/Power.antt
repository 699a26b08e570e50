-- ===== src/Power.antt =====
-- sdhci.c: sdhci_set_power_reg, sdhci_set_power_noreg, sdhci_set_power and
-- sdhci_set_power_and_bus_voltage. Calls of the regulator framework (mmc_regulator_set_ocr) keep no
-- state here. `vdd` is a bit of the OCR register, `on` says that the mode is not MMC_POWER_OFF.
pub mod Mode
pub mod Laws
use linux_sdhci_rtt.Base.{ℕ, bit_or, Bool, true, false, not, ◌==◌, if◌then◌else◌, has}
use linux_sdhci_rtt.Regs.{
  power_control, power_on, power_180, power_300, power_330, quirk_single_power_write,
  quirk_no_simult_vdd_and_power, quirk2_card_on_needs_bus_on,
}
use linux_sdhci_rtt.Device.{Device, M, ◌>>=◌, ◌>>◌, ret, get, put, when, writeb}
use linux_sdhci_rtt.Reset.{bus_on, bus_off}

-- `1 << vdd`, the range that the bit stands for; RT-Thread's headers number the bits.
pub data Vdd : Type 0 where
  vdd_165_195 vdd_20_21 vdd_29_30 vdd_30_31 vdd_32_33 vdd_33_34 other_vdd : Vdd

-- The `switch` over the range: a range that it does not know leaves the power off.
unfoldable pub power_bits : Vdd → ℕ
power_bits vdd_165_195 = power_180
power_bits vdd_20_21 = power_180
power_bits vdd_29_30 = power_300
power_bits vdd_30_31 = power_300
power_bits vdd_32_33 = power_330
power_bits vdd_33_34 = power_330
power_bits other_vdd = 0

-- The writes that turn the power on, with the quirks on their number and order.
unfoldable pub power_up : ℕ → M (Unit {0})
power_up pwr = do
  d ← get
  when (not (has d.quirks quirk_single_power_write)) (writeb 0 power_control)
  when (has d.quirks quirk_no_simult_vdd_and_power) (writeb pwr power_control)
  writeb (bit_or pwr power_on) power_control
  when (has d.quirks2 quirk2_card_on_needs_bus_on) bus_on

unfoldable pub power_down : M (Unit {0})
power_down = do
  writeb 0 power_control
  d ← get
  when (has d.quirks2 quirk2_card_on_needs_bus_on) bus_off

unfoldable pub set_power_noreg : Bool → Vdd → M (Unit {0})
unfolding power_up power_down power_bits
set_power_noreg on vdd = do
  d ← get
  let pwr = if on then power_bits vdd else 0
  if d.pwr == pwr
      then ret tt
      else (do put (record d { pwr = pwr }); if pwr == 0 then power_down else power_up pwr)

unfoldable pub set_power_reg : Bool → M (Unit {0})
set_power_reg on = writeb (if on then power_on else 0) power_control

-- `regulated` says that a regulator supplies the card, `!IS_ERR(mmc->supply.vmmc)`.
unfoldable pub set_power : Bool → Bool → Vdd → M (Unit {0})
unfolding set_power_noreg set_power_reg
set_power regulated on vdd = if regulated then set_power_reg on else set_power_noreg on vdd

unfoldable pub set_power_and_bus_voltage : Bool → Vdd → M (Unit {0})
unfolding set_power_noreg
set_power_and_bus_voltage on vdd = set_power_noreg on vdd
