-- ===== src/Ios/Asked.antt =====
-- What sdhci_set_ios and sdhci_start_signal_voltage_switch leave of the request and of the controller.
use linux_sdhci_rtt.Base.{
  ℕ, ◌≡◌, refl, ◌∙◌, bit_or, Bool, true, false, not, ◌&&◌, leb, ltb, if◌then◌else◌, has,
}
use linux_sdhci_rtt.Regs.{
  device_dead, spec_300, host_control, quirk2_preset_value_broken, host_control2, ctrl_vdd_180,
  signaling_330, signaling_180,
}
use linux_sdhci_rtt.Device.{Device, Timing, M, ◌>>◌, ret, when, readw, readb, writeb, writew}
use linux_sdhci_rtt.Device.Keeps.{Keeps, if_keeps}
use linux_sdhci_rtt.Power.Mode.{PowerMode}
use linux_sdhci_rtt.Reset.Keeps.{core}
use linux_sdhci_rtt.Ios.{
  Ops, Ios, SignalVoltage, voltage_330, voltage_180, voltage_120, other_voltage, voltage_stable,
  voltage_switch_to, start_signal_voltage_switch, is_undefined, is_power_up, enable_preset_value,
  stop_card_clock, hispd_ctrl, set_ios_control, set_ios_clock, set_ios_mode, set_ios_preset,
  set_ios_timing, set_ios_on, set_ios_live, set_ios,
}
use linux_sdhci_rtt.Ios.Laws.{KeepsCore}

-- The part of a request that is not changed.
abbrev pub asked : Ios → ℕ × (Timing × PowerMode)
asked ios = (ios.clock, (ios.timing, ios.power_mode))

-- Both branches of a test give the same.
same_asked :
    (b : Bool) (m n : M Ios) (d : Device) (ios : Ios)
    → asked (m d).0 ≡ asked ios
    → asked (n d).0 ≡ asked ios
    → asked ((if b then m else n) d).0 ≡ asked ios
same_asked true m n d ios p q = p
same_asked false m n d ios p q = q

module _ (ops : Ops) where
  set_ios_preset-asked : (ios : Ios) (d : Device) → asked (set_ios_preset ops ios d).0 ≡ asked ios
  unfolding set_ios_preset
  set_ios_preset-asked ios d = same_asked _ _ _ d ios refl refl

  set_ios_timing-asked :
      (ctrl : ℕ) (ios : Ios) (d : Device) → asked (set_ios_timing ops ctrl ios d).0 ≡ asked ios
  unfolding set_ios_timing
  set_ios_timing-asked ctrl ios d =
      let d1 = (set_ios_control ops ios.drv_type ctrl d).1 in
      let d2 = (stop_card_clock d1).1 in
      let d3 = (ops.set_uhs_signaling ios.timing d2).1 in
      set_ios_preset-asked ios (record d3 { timing = ios.timing })

  set_ios_on-asked : (ios : Ios) (d : Device) → asked (set_ios_on ops ios d).0 ≡ asked ios
  unfolding set_ios_on
  set_ios_on-asked ios d =
      let d1 =
        (when
          (leb spec_300 d.version
            && is_power_up ios.power_mode
            && not (has d.quirks2 quirk2_preset_value_broken))
          (enable_preset_value false) d).1 in
      let d2 = (set_ios_clock ops ios.clock d1).1 in
      let d3 = (ops.set_power ios.power_mode ios.vdd d2).1 in
      let d4 = (ops.set_bus_width ios.bus_width d3).1 in
      let (old, d5) = readb host_control d4 in
      let ctrl = hispd_ctrl d5.quirks ios.timing old in
      same_asked (leb spec_300 d5.version) (set_ios_timing ops ctrl ios)
        (do writeb ctrl host_control; ret ios) d5 ios (set_ios_timing-asked ctrl ios d5) refl

  set_ios_live-asked : (ios : Ios) (d : Device) → asked (set_ios_live ops ios d).0 ≡ asked ios
  unfolding set_ios_live
  set_ios_live-asked ios d =
      same_asked (has d.flags device_dead) (ret ios)
        (do set_ios_mode ios.power_mode; set_ios_on ops ios) d ios refl
        (set_ios_on-asked ios (set_ios_mode ios.power_mode d).1)

  pub set_ios-asked : (ios : Ios) (d : Device) → asked (set_ios ops ios d).0 ≡ asked ios
  unfolding set_ios
  set_ios-asked ios d =
      same_asked (is_undefined ios.power_mode) (ret ios) (set_ios_live ops ios) d ios refl
        (set_ios_live-asked ios d)

  module _ (law : KeepsCore ops) where
    stable-Keeps : (want : Bool) → Keeps core (voltage_stable want)
    unfolding voltage_stable readw
    stable-Keeps want d = refl

    voltage_switch_to-Keeps :
        (v : SignalVoltage) (ctrl : ℕ) → Keeps core (voltage_switch_to ops v ctrl)
    unfolding voltage_switch_to writew
    voltage_switch_to-Keeps voltage_330 ctrl d =
        if_keeps core (not (has d.flags signaling_330)) _ _ d d refl (stable-Keeps false _)
    voltage_switch_to-Keeps voltage_180 ctrl d =
        if_keeps core (not (has d.flags signaling_180)) _ _ d d refl (
          stable-Keeps true _
          ∙ law.voltage_switch (writew (bit_or ctrl ctrl_vdd_180) host_control2 d).1)
    voltage_switch_to-Keeps voltage_120 ctrl d = refl
    voltage_switch_to-Keeps other_voltage ctrl d = refl

    pub start_signal_voltage_switch-Keeps :
        (v : SignalVoltage) → Keeps core (start_signal_voltage_switch ops v)
    unfolding start_signal_voltage_switch readw
    start_signal_voltage_switch-Keeps v d =
        if_keeps core (ltb d.version spec_300) _ _ d d refl
          (voltage_switch_to-Keeps v (readw host_control2 d).0 (readw host_control2 d).1)
