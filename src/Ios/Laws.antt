-- ===== src/Ios/Laws.antt =====
-- What sdhci_set_ios leaves: the clock and the timing that it was asked for.
use linux_sdhci_rtt.Base.{
  ℕ, ◌≡◌, refl, ap, ◌∙◌, bit_or, bit_and, clear, bit, bit-le, bit-bit_or, bit-bit_and, has-bit,
  Bool, true, false, not, ◌&&◌, ltb, if◌then◌else◌, has, arith,
}
use linux_sdhci_rtt.Regs.{
  device_dead, pv_enabled, spec_300, reset_all, reset_cmd, reset_data, host_control, signal_enable,
  quirk2_preset_value_broken,
}
use linux_sdhci_rtt.Device.{Timing, readw, writel, writew, writeb}
use linux_sdhci_rtt.Device.Keeps.{Keeps, if_keeps}
use linux_sdhci_rtt.Clock.{get_preset_value}
use linux_sdhci_rtt.Card.{Lines}
use linux_sdhci_rtt.Power.{Vdd}
use linux_sdhci_rtt.Power.Mode.{PowerMode}
use linux_sdhci_rtt.Reset.{init}
use linux_sdhci_rtt.Reset.Keeps.{
  full, Core, core, version_of, init-Keeps_version, set_card_detection-Keeps,
}
use linux_sdhci_rtt.Ios.{
  Ops, Ios, reinit, enable_preset_value, has_preset, stop_card_clock, set_ios_control,
  set_ios_preset, set_ios_mode,
}

-- What the driver relies on: the functions of the platform change neither the cached clock nor the timing nor the
-- version, nor the base clock; and only set_clock changes the clock that the controller runs.
pub record KeepsCore (ops : Ops) : Type 0 where
  pub set_clock : (clock : ℕ) → Keeps core (ops.set_clock clock)
  pub set_power : (mode : PowerMode) (vdd : Vdd) → Keeps full (ops.set_power mode vdd)
  pub set_bus_width : (width : Lines) → Keeps full (ops.set_bus_width width)
  pub set_uhs_signaling : (timing : Timing) → Keeps full (ops.set_uhs_signaling timing)
  pub voltage_switch : Keeps core ops.voltage_switch

abbrev inner : ℕ × Core → Core
inner c = c.1

pub stop_card_clock-Keeps : Keeps core stop_card_clock
unfolding stop_card_clock readw writew
stop_card_clock-Keeps d = refl

-- The flag for presets is not the one for a dead controller.
other_flag :
    (enable : Bool) (flags : ℕ)
    → has (if enable then bit_or flags pv_enabled else clear 32 flags pv_enabled) device_dead
      ≡ has flags device_dead
unfolding clear bit
other_flag true flags =
    ground (arith, has-bit 3 (bit_or flags 0x100), has-bit 3 flags, bit-bit_or 3 flags 0x100)
other_flag false flags = ground (
  arith,
  has-bit 3 (bit_and flags 0xfffffeff),
  has-bit 3 flags,
  bit-bit_and 3 flags 0xfffffeff,
  bit-le 3 flags,
)

pub enable_preset_value-Keeps : (enable : Bool) → Keeps full (enable_preset_value enable)
unfolding enable_preset_value readw writew
enable_preset_value-Keeps enable d = if_keeps full (ltb d.version spec_300) _ _ d d refl (
    if_keeps full (if enable then d.preset_enabled else not d.preset_enabled) _ _ d d refl (
      ap (λ (b : Bool). (d.actual_clock, (d.clock, (d.timing, (d.version, (b, d.max_clk))))))
        (other_flag enable d.flags)))

get_preset_value-Keeps : Keeps core get_preset_value
unfolding get_preset_value readw
get_preset_value-Keeps d = refl

reinit-Keeps : Keeps version_of reinit
unfolding reinit
reinit-Keeps d =
    ap (λ (c : ℕ × Core). c.1.1.1) (set_card_detection-Keeps true (init false d).1)
    ∙ init-Keeps_version false d

pub set_ios_preset-Keeps : (ops : Ops) (ios : Ios) → Keeps core (set_ios_preset ops ios)
unfolding set_ios_preset
set_ios_preset-Keeps ops ios d =
    if_keeps core (not (has d.quirks2 quirk2_preset_value_broken) && has_preset ios.timing) _ _ d d
      (get_preset_value-Keeps (enable_preset_value true d).1
        ∙ ap inner (enable_preset_value-Keeps true d))
      refl

pub circuits_only : has (bit_or reset_cmd reset_data) reset_all ≡ false
unfolding has
circuits_only = refl

module _ (ops : Ops) (law : KeepsCore ops) where
  pub set_ios_control-Keeps : (drv_type ctrl : ℕ) → Keeps core (set_ios_control ops drv_type ctrl)
  unfolding set_ios_control writeb readw writew
  set_ios_control-Keeps drv_type ctrl d =
      if_keeps core (not d.preset_enabled) _ _ d d refl (
        law.set_clock _ (writeb ctrl host_control (stop_card_clock d).1).1
        ∙ stop_card_clock-Keeps d)

pub set_ios_mode-Keeps : (mode : PowerMode) → Keeps version_of (set_ios_mode mode)
unfolding set_ios_mode writel
set_ios_mode-Keeps PowerMode.power_off d = reinit-Keeps (writel 0 signal_enable d).1
set_ios_mode-Keeps PowerMode.power_up d = refl
set_ios_mode-Keeps PowerMode.power_on d = refl
set_ios_mode-Keeps PowerMode.power_undefined d = refl
