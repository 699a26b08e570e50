-- ===== src/Cvitek/Pads/Quiet.antt =====
-- Programs of the CV181x platform, and the code of sdhci.c that they call, that write nothing to the power
-- switch of the SD host.
use linux_sdhci_rtt.Base.{ℕ, ◌+◌, refl, ◌∙◌, Bool, ◌==◌, bit_and, bit_or, if◌then◌else◌, has, not}
use linux_sdhci_rtt.Device.{
  Device, Timing, ◌>>◌, when, put, readb, readw, readl, writeb, writew, writel,
}
use linux_sdhci_rtt.Device.Quiet.{
  Quiet, when-Quiet, if-Quiet, unless-Quiet, writeb-Quiet, writel-Quiet,
}
use linux_sdhci_rtt.Reset.{reset, bus_on, bus_off}
use linux_sdhci_rtt.Reset.Quiet.{bus_on-Quiet, bus_off-Quiet, reset-Quiet}
use linux_sdhci_rtt.Power.{Vdd, power_up, power_down, power_bits, set_power_noreg}
use linux_sdhci_rtt.Regs.{
  host_control2, ctrl_uhs_mask, ctrl_uhs_sdr104, power_control, power_on,
  quirk2_card_on_needs_bus_on, quirk_single_power_write, quirk_no_simult_vdd_and_power, int_enable,
  signal_enable,
}
use linux_sdhci_rtt.Cvitek.{
  sd_reset, reset_helper, restore_delay, tuned_delay, default_delay, general_set_uhs_signaling,
}
use linux_sdhci_rtt.Cvitek.Pads.{
  restore_ds_hs, top_base, offset_sd_pwrsw_ctrl, sd_setup_pad, sd_setup_io,
}

abbrev pub pwrsw : ℕ
pwrsw = top_base + offset_sd_pwrsw_ctrl

pub sd_setup_pad-Quiet : (b : Bool) → Quiet pwrsw (sd_setup_pad b)
unfolding sd_setup_pad writeb
sd_setup_pad-Quiet b d = refl

pub sd_setup_io-Quiet : (b : Bool) → Quiet pwrsw (sd_setup_io b)
unfolding sd_setup_io writeb readb
sd_setup_io-Quiet b d = refl

pub restore_ds_hs-Quiet : Quiet pwrsw restore_ds_hs
unfolding restore_ds_hs writel readl
restore_ds_hs-Quiet d = refl

pub power_up-Quiet : (pwr : ℕ) → Quiet pwrsw (power_up pwr)
unfolding power_up
power_up-Quiet pwr d =
    let d1 = (when (not (has d.quirks quirk_single_power_write)) (writeb 0 power_control) d).1 in
    let d2 = (when (has d.quirks quirk_no_simult_vdd_and_power) (writeb pwr power_control) d1).1 in
    let d3 = (writeb (bit_or pwr power_on) power_control d2).1 in
    when-Quiet pwrsw (has d.quirks2 quirk2_card_on_needs_bus_on) bus_on (bus_on-Quiet pwrsw) d3
    ∙ writeb-Quiet pwrsw (bit_or pwr power_on) power_control refl d2
    ∙ when-Quiet pwrsw (has d.quirks quirk_no_simult_vdd_and_power) (writeb pwr power_control)
        (writeb-Quiet pwrsw pwr power_control refl) d1
    ∙ when-Quiet pwrsw (not (has d.quirks quirk_single_power_write)) (writeb 0 power_control)
        (writeb-Quiet pwrsw 0 power_control refl) d

pub power_down-Quiet : Quiet pwrsw power_down
unfolding power_down
power_down-Quiet d =
    when-Quiet pwrsw (has (writeb 0 power_control d).1.quirks2 quirk2_card_on_needs_bus_on) bus_off
      (bus_off-Quiet pwrsw) (writeb 0 power_control d).1
    ∙ writeb-Quiet pwrsw 0 power_control refl d

pub set_power_noreg-Quiet : (on : Bool) (vdd : Vdd) → Quiet pwrsw (set_power_noreg on vdd)
unfolding set_power_noreg
set_power_noreg-Quiet on vdd d =
    unless-Quiet pwrsw (d.pwr == pwr) (put e >> (if pwr == 0 then power_down else power_up pwr)) d
      (if-Quiet pwrsw (pwr == 0) power_down (power_up pwr) power_down-Quiet (power_up-Quiet pwr) e)
  where
    pwr : ℕ
    pwr = if on then power_bits vdd else 0

    e : Device
    e = record d { pwr = pwr }

pub restore_delay-Quiet : (tap : ℕ) → Quiet pwrsw (restore_delay tap)
unfolding restore_delay readw tuned_delay default_delay readl writel
restore_delay-Quiet tap d =
    if-Quiet pwrsw (bit_and (readw host_control2 d).0 ctrl_uhs_mask == ctrl_uhs_sdr104)
      (tuned_delay tap) default_delay (λ e. refl) (λ e. refl) (readw host_control2 d).1

pub set_uhs_signaling-Quiet : (uhs : Timing) → Quiet pwrsw (general_set_uhs_signaling uhs)
unfolding general_set_uhs_signaling readw writew
set_uhs_signaling-Quiet uhs d = refl

pub reset_helper-Quiet : (mask : ℕ) → Quiet pwrsw (reset_helper mask)
unfolding reset_helper
reset_helper-Quiet mask d =
    let d1 = (writel 0 int_enable d).1 in
    let d2 = (writel 0 signal_enable d1).1 in
    let d3 = (reset mask d2).1 in
    let d4 = (writel d3.ier int_enable d3).1 in
    writel-Quiet pwrsw d3.ier signal_enable refl d4
    ∙ writel-Quiet pwrsw d3.ier int_enable refl d3
    ∙ reset-Quiet pwrsw mask refl d2
    ∙ writel-Quiet pwrsw 0 signal_enable refl d1
    ∙ writel-Quiet pwrsw 0 int_enable refl d

pub sd_reset-Quiet : (tap mask : ℕ) → Quiet pwrsw (sd_reset tap mask)
unfolding sd_reset
sd_reset-Quiet tap mask d =
    restore_delay-Quiet tap (reset_helper mask d).1 ∙ reset_helper-Quiet mask d
