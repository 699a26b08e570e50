-- ===== src/Ios.antt =====
-- sdhci.c: sdhci_reinit, sdhci_enable_preset_value, sdhci_set_ios, sdhci_start_signal_voltage_switch,
-- sdhci_card_busy and sdhci_prepare_hs400_tuning. The functions of `host->ops` that they call are an interface;
-- the platforms set neither get_max_timeout_count nor platform_send_init_74_clocks. A card without
-- regulators: mmc_regulator_get_supply of the port finds none. mmc_detect_change of the port does
-- nothing.
pub mod Laws
pub mod Voltage
pub mod Asked
pub mod Clocks
pub mod Ends
use linux_sdhci_rtt.Base.{
  ℕ, zero, suc, ◌+◌, ◌*◌, ◌/◌, ◌^◌, bit_and, bit_or, Bool, true, false, not, ◌&&◌, ◌||◌, Option,
  none, some, ◌==◌, leb, ltb, if◌then◌else◌, has, clear,
}
use linux_sdhci_rtt.Regs.{
  host_control, host_control2, clock_control, signal_enable, present_state, ctrl_hispd,
  ctrl_drv_type_mask, ctrl_drv_type_a, ctrl_drv_type_b, ctrl_drv_type_c, ctrl_drv_type_d,
  ctrl_preset_val_enable, ctrl_vdd_180, clock_card_en, data_0_lvl_mask, preset_drv_mask, spec_300,
  device_dead, pv_enabled, hs400_tuning, signaling_330, signaling_180, signaling_120,
  quirk_no_hispd_bit, quirk_data_timeout_uses_sdclk, quirk_reset_cmd_data_on_ios,
  quirk2_preset_value_broken, reset_cmd, reset_data,
}
use linux_sdhci_rtt.Device.{
  Device, Timing, M, ◌>>=◌, ◌>>◌, ret, get, put, when, readl, readw, readb, writel, writew, writeb,
}
use linux_sdhci_rtt.Clock.{get_preset_value}
use linux_sdhci_rtt.Card.{Lines}
use linux_sdhci_rtt.Power.{Vdd}
use linux_sdhci_rtt.Power.Mode.{PowerMode}
use linux_sdhci_rtt.Reset.{init, do_reset, set_card_detection}

-- The functions of `struct sdhci_ops` that are called here; `set_power` is sdhci_set_power where the
-- platform sets none, and `voltage_switch` does nothing then.
pub record Ops : Type 0 where
  pub set_clock : ℕ → M (Unit {0})
  pub set_power : PowerMode → Vdd → M (Unit {0})
  pub set_bus_width : Lines → M (Unit {0})
  pub set_uhs_signaling : Timing → M (Unit {0})
  pub voltage_switch : M (Unit {0})

-- MMC_SIGNAL_VOLTAGE_330, _180 and _120; RT-Thread's field can hold other numbers.
pub data SignalVoltage : Type 0 where
  voltage_330 voltage_180 voltage_120 other_voltage : SignalVoltage

-- `struct mmc_ios`.
pub record Ios : Type 0 where
  pub clock : ℕ
  pub power_mode : PowerMode
  pub vdd : Vdd
  pub bus_width : Lines
  pub timing : Timing
  pub drv_type : ℕ
  pub signal_voltage : SignalVoltage

-- sdhci_reinit; what follows a change of the card detection enables does nothing in the port.
unfoldable pub reinit : M (Unit {0})
reinit = do init false; set_card_detection true

unfoldable pub enable_preset_value : Bool → M (Unit {0})
enable_preset_value enable = do
  d ← get
  if ltb d.version spec_300
      then ret tt
      else if (if enable then d.preset_enabled else not d.preset_enabled)
      then ret tt
      else (do
        ctrl ← readw host_control2
        writew
            (if enable
              then bit_or ctrl ctrl_preset_val_enable
              else clear 16 ctrl ctrl_preset_val_enable)
            host_control2
        e ← get
        put (record e {
          flags = if enable then bit_or e.flags pv_enabled else clear 32 e.flags pv_enabled;
          preset_enabled = enable;
        }))

-- `host->timeout_clk` and `mmc->max_busy_timeout` of a controller whose time-out runs with the clock of the
-- card, which is at least 1 kHz.
unfoldable pub busy_timeout_of : Device → Device
busy_timeout_of d =
    let timeout_clk = if d.actual_clock == 0 then d.clock / 1000 else d.actual_clock / 1000 in
    record d { timeout_clk = timeout_clk; max_busy_timeout = 2 ^ 27 / timeout_clk }

-- The timings that need the bit for high speed.
abbrev pub is_high_speed : Timing → Bool
is_high_speed Timing.legacy = false
is_high_speed Timing.uhs_sdr12 = false
is_high_speed _ = true

unfoldable pub hispd_ctrl : ℕ → Timing → ℕ → ℕ
hispd_ctrl quirks timing ctrl =
    if has quirks quirk_no_hispd_bit
    then ctrl
    else if is_high_speed timing
    then bit_or ctrl ctrl_hispd
    else clear 8 ctrl ctrl_hispd

-- MMC_SET_DRIVER_TYPE_A, _C and _D; a number that is no driver type stands for type B.
unfoldable pub driver_bits : ℕ → ℕ
driver_bits drv_type =
    if drv_type == 1
    then ctrl_drv_type_a
    else if drv_type == 2
    then ctrl_drv_type_c
    else if drv_type == 3
    then ctrl_drv_type_d
    else ctrl_drv_type_b

-- The timings for which the controller has a preset.
abbrev pub has_preset : Timing → Bool
has_preset Timing.uhs_sdr12 = true
has_preset Timing.uhs_sdr25 = true
has_preset Timing.uhs_sdr50 = true
has_preset Timing.uhs_sdr104 = true
has_preset Timing.uhs_ddr50 = true
has_preset Timing.mmc_ddr52 = true
has_preset _ = false

abbrev pub is_power_up : PowerMode → Bool
is_power_up PowerMode.power_up = true
is_power_up _ = false

abbrev pub is_undefined : PowerMode → Bool
is_undefined PowerMode.power_undefined = true
is_undefined _ = false

-- "Reset SD Clock Enable".
unfoldable pub stop_card_clock : M (Unit {0})
stop_card_clock = do clk ← readw clock_control; writew (clear 16 clk clock_card_en) clock_control

-- "Reset the chip on each power off."
unfoldable pub set_ios_mode : PowerMode → M (Unit {0})
set_ios_mode PowerMode.power_off = do writel 0 signal_enable; reinit
set_ios_mode _ = ret tt

module _ (ops : Ops) where
  unfoldable pub set_ios_clock : ℕ → M (Unit {0})
  set_ios_clock clock = do
    d ← get
    when (clock == 0 || not (clock == d.clock)) (do
      ops.set_clock clock
      e ← get
      put (record e { clock = clock })
      f ← get
      when (has f.quirks quirk_data_timeout_uses_sdclk && not (f.clock == 0))
          (put (busy_timeout_of f)))

  -- The control register, and the driver strength unless presets are on.
  unfoldable pub set_ios_control : ℕ → ℕ → M (Unit {0})
  set_ios_control drv_type ctrl = do
    d ← get
    if not d.preset_enabled
        then (do
          writeb ctrl host_control
          ctrl_2 ← readw host_control2
          writew (bit_or (clear 16 ctrl_2 ctrl_drv_type_mask) (driver_bits drv_type)) host_control2)
        else (do stop_card_clock; writeb ctrl host_control; e ← get; ops.set_clock e.clock)

  -- Presets for the timings that have one; the driver strength is the preset's then.
  unfoldable pub set_ios_preset : Ios → M Ios
  set_ios_preset ios = do
    d ← get
    if not (has d.quirks2 quirk2_preset_value_broken) && has_preset ios.timing
        then (do
          enable_preset_value true
          preset ← get_preset_value
          ret (record ios { drv_type = bit_and preset preset_drv_mask / 2 ^ 14 }))
        else ret ios

  -- The timing, on version 3.00 and later.
  unfoldable pub set_ios_timing : ℕ → Ios → M Ios
  set_ios_timing ctrl ios = do
    set_ios_control ios.drv_type ctrl
    stop_card_clock
    ops.set_uhs_signaling ios.timing
    d ← get
    put (record d { timing = ios.timing })
    new ← set_ios_preset ios
    e ← get
    ops.set_clock e.clock
    ret new

  unfoldable pub set_ios_on : Ios → M Ios
  set_ios_on ios = do
    d ← get
    when
        (leb spec_300 d.version
          && is_power_up ios.power_mode
          && not (has d.quirks2 quirk2_preset_value_broken))
        (enable_preset_value false)
    set_ios_clock ios.clock
    ops.set_power ios.power_mode ios.vdd
    ops.set_bus_width ios.bus_width
    old ← readb host_control
    e ← get
    let ctrl = hispd_ctrl e.quirks ios.timing old
    new ←
        (if leb spec_300 e.version
          then set_ios_timing ctrl ios
          else (do writeb ctrl host_control; ret ios))
    when (has e.quirks quirk_reset_cmd_data_on_ios) (do_reset (bit_or reset_cmd reset_data))
    ret new

  unfoldable pub set_ios_live : Ios → M Ios
  set_ios_live ios = do
    d ← get
    if has d.flags device_dead then ret ios else (do set_ios_mode ios.power_mode; set_ios_on ios)

  unfoldable pub set_ios : Ios → M Ios
  set_ios ios = if is_undefined ios.power_mode then ret ios else set_ios_live ios

-- What sdhci_start_signal_voltage_switch returns: 0, -EINVAL or -EAGAIN.
pub data Switch : Type 0 where
  switched invalid again : Switch

-- The checks of the bit that enables 1.8 V, after a write.
unfoldable pub voltage_stable : Bool → M Switch
voltage_stable want = do
  ctrl ← readw host_control2
  ret (
      if has ctrl ctrl_vdd_180
      then if want then switched else again
      else if want
      then again
      else switched)

unfoldable pub voltage_switch_to : Ops → SignalVoltage → ℕ → M Switch
voltage_switch_to ops SignalVoltage.voltage_330 ctrl = do
  d ← get
  if not (has d.flags signaling_330)
      then ret invalid
      else (do writew (clear 16 ctrl ctrl_vdd_180) host_control2; voltage_stable false)
voltage_switch_to ops SignalVoltage.voltage_180 ctrl = do
  d ← get
  if not (has d.flags signaling_180) then ret invalid else (do
    writew (bit_or ctrl ctrl_vdd_180) host_control2
    ops.voltage_switch
    voltage_stable true)
voltage_switch_to ops SignalVoltage.voltage_120 ctrl = do
  d ← get
  ret (if not (has d.flags signaling_120) then invalid else switched)
voltage_switch_to ops SignalVoltage.other_voltage ctrl = ret switched

unfoldable pub start_signal_voltage_switch : Ops → SignalVoltage → M Switch
start_signal_voltage_switch ops signal_voltage = do
  d ← get
  if ltb d.version spec_300
      then ret switched
      else (do ctrl ← readw host_control2; voltage_switch_to ops signal_voltage ctrl)

-- "Check whether DAT[0] is 0".
unfoldable pub card_busy : M Bool
card_busy = do state ← readl present_state; ret (not (has state data_0_lvl_mask))

unfoldable pub prepare_hs400_tuning : M (Unit {0})
prepare_hs400_tuning = do d ← get; put (record d { flags = bit_or d.flags hs400_tuning })
