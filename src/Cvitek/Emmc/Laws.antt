-- ===== src/Cvitek/Emmc/Laws.antt =====
-- The functions of the eMMC host keep what sdhci_set_ios relies on.
use linux_sdhci_rtt.Base.{
  ℕ, ◌∙◌, ◌≡◌, refl, bit_or, clear, has, Bool, false, not, ◌&&◌, Option, none, some, ◌==◌, leb,
  if◌then◌else◌,
}
use linux_sdhci_rtt.Regs.{
  spec_300, spec_410, clock_control, clock_pll_en, clock_int_stable, clock_int_en, power_control,
  power_on, quirk_single_power_write, quirk_no_simult_vdd_and_power, quirk2_card_on_needs_bus_on,
}
use linux_sdhci_rtt.Device.{
  Device, Timing, ◌>>=◌, ◌>>◌, ret, get, put, when, readb, readw, writeb, writew, ktime_get,
  ktime_add_ms,
}
use linux_sdhci_rtt.Device.Poll.{Poll, ready, timed_out, out_of_fuel}
use linux_sdhci_rtt.Device.Keeps.{Keeps, when-Keeps, if-Keeps, if_keeps, poll-Keeps}
use linux_sdhci_rtt.Reset.{bus_on, bus_off}
use linux_sdhci_rtt.Reset.Keeps.{full, core}
use linux_sdhci_rtt.Clock.{choose, calc_clk, get_preset_value}
use linux_sdhci_rtt.Clock.Enable.{
  is_stable, wait_stable, enable_card, enable_pll, enable_clk, set_clock, store_actual,
}
use linux_sdhci_rtt.Card.{Lines, set_bus_width}
use linux_sdhci_rtt.Power.{Vdd, power_up, power_down, power_bits, set_power_noreg, set_power}
use linux_sdhci_rtt.Cvitek.{general_set_uhs_signaling}
use linux_sdhci_rtt.Ios.Laws.{KeepsCore}
use linux_sdhci_rtt.Cvitek.Emmc.{emmc_ops, is_on}

readw-Keeps : (reg : ℕ) → Keeps core (readw reg)
unfolding readw
readw-Keeps reg d = refl

wait_stable-Keeps : (fuel : ℕ) → Keeps core (wait_stable fuel)
unfolding wait_stable
wait_stable-Keeps fuel d =
    poll-Keeps core (readw clock_control) is_stable (ktime_add_ms (ktime_get d) 150) fuel
      (readw-Keeps clock_control) d

enable_card-Keeps : (p : Poll) → Keeps core (enable_card p)
unfolding enable_card writew
enable_card-Keeps (ready clk) d = refl
enable_card-Keeps timed_out d = refl
enable_card-Keeps out_of_fuel d = refl

enable_pll-Keeps : (fuel : ℕ) (p : Poll) → Keeps core (enable_pll fuel p)
unfolding enable_pll writew
enable_pll-Keeps fuel timed_out d = refl
enable_pll-Keeps fuel out_of_fuel d = refl
enable_pll-Keeps fuel (ready clk) d =
    let stop = writew (clear 16 (bit_or clk clock_pll_en) clock_int_stable) clock_control in
    if_keeps core (leb spec_410 d.version && d.v4_mode) (stop >> wait_stable fuel) (ret (ready clk))
      d d (wait_stable-Keeps fuel (stop d).1) refl

enable_clk-Keeps : (fuel clk : ℕ) → Keeps core (enable_clk fuel clk)
unfolding enable_clk writew
enable_clk-Keeps fuel clk d =
    let d1 = (writew (bit_or clk clock_int_en) clock_control d).1 in
    let (p, d2) = wait_stable fuel d1 in
    let (q, d3) = enable_pll fuel p d2 in
    enable_card-Keeps q d3 ∙ enable_pll-Keeps fuel p d2 ∙ wait_stable-Keeps fuel d1

calc_clk-Keeps : (clock : ℕ) → Keeps core (calc_clk clock)
unfolding calc_clk choose get_preset_value readw
calc_clk-Keeps clock d =
    if_keeps core (leb spec_300 d.version) _ _ d d
      (if_keeps core d.preset_enabled _ _ d d refl refl) refl

store_actual-core : (a : Option ℕ) (d : Device) → core (store_actual a d) ≡ core d
store_actual-core none d = refl
store_actual-core (some a) d = refl

set_clock-Keeps : (fuel clock : ℕ) → Keeps core (set_clock fuel clock)
unfolding set_clock writew
set_clock-Keeps fuel clock d =
    let d1 = (writew 0 clock_control (record d { actual_clock = 0 })).1 in
    let ((clk, act), d2) = calc_clk clock d1 in
    if_keeps core (clock == 0) (ret (ready 0))
      (do (clk, act) ← calc_clk clock; e ← get; put (store_actual act e); enable_clk fuel clk) d d1
      refl
      (enable_clk-Keeps fuel clk (store_actual act d2)
        ∙ store_actual-core act d2
        ∙ calc_clk-Keeps clock d1)

power_up-Keeps : (pwr : ℕ) → Keeps full (power_up pwr)
unfolding power_up writeb bus_on
power_up-Keeps pwr d =
    let d1 = (when (not (has d.quirks quirk_single_power_write)) (writeb 0 power_control) d).1 in
    let d2 = (when (has d.quirks quirk_no_simult_vdd_and_power) (writeb pwr power_control) d1).1 in
    let d3 = (writeb (bit_or pwr power_on) power_control d2).1 in
    when-Keeps full (has d.quirks2 quirk2_card_on_needs_bus_on) bus_on (λ e. refl) d3
    ∙ when-Keeps full (has d.quirks quirk_no_simult_vdd_and_power) (writeb pwr power_control)
        (λ e. refl) d1
    ∙ when-Keeps full (not (has d.quirks quirk_single_power_write)) (writeb 0 power_control)
        (λ e. refl) d

power_down-Keeps : Keeps full power_down
unfolding power_down writeb bus_off
power_down-Keeps d =
    when-Keeps full (has d.quirks2 quirk2_card_on_needs_bus_on) bus_off (λ e. refl)
      (writeb 0 power_control d).1

set_power-Keeps : (on : Bool) (vdd : Vdd) → Keeps full (set_power false on vdd)
unfolding set_power set_power_noreg
set_power-Keeps on vdd d =
    let pwr = if on then power_bits vdd else 0 in
    if_keeps full (d.pwr == pwr) _ _ d d refl (
      if-Keeps full (pwr == 0) power_down (power_up pwr) power_down-Keeps (power_up-Keeps pwr)
        (record d { pwr = pwr }))

set_bus_width-Keeps : (caps8 : Bool) (width : Lines) → Keeps full (set_bus_width caps8 width)
unfolding set_bus_width readb writeb
set_bus_width-Keeps caps8 width d = refl

set_uhs_signaling-Keeps : (timing : Timing) → Keeps full (general_set_uhs_signaling timing)
unfolding general_set_uhs_signaling readw writew
set_uhs_signaling-Keeps timing d = refl

pub emmc_ops-KeepsCore : (caps8 : Bool) → KeepsCore (emmc_ops caps8)
unfolding emmc_ops
emmc_ops-KeepsCore caps8 = record {
  set_clock = λ clock d. set_clock-Keeps d.rounds clock d;
  set_power = λ mode vdd. set_power-Keeps (is_on mode) vdd;
  set_bus_width = set_bus_width-Keeps caps8;
  set_uhs_signaling = set_uhs_signaling-Keeps;
  voltage_switch = λ d. refl;
}
