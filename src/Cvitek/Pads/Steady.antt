-- ===== src/Cvitek/Pads/Steady.antt =====
-- The clock, the bus width and the tuning of the SD host write nothing to its power switch.
use linux_sdhci_rtt.Base.{
  ℕ, zero, suc, ◌+◌, ◌∙◌, ◌≡◌, refl, ap, bit_or, clear, Bool, ◌&&◌, Option, none, some, ◌==◌, leb,
  arith,
}
use linux_sdhci_rtt.Regs.{
  spec_410, clock_control, clock_pll_en, clock_int_stable, clock_int_en, software_reset,
}
use linux_sdhci_rtt.Device.{
  Device, M, ◌>>=◌, ◌>>◌, ret, get, put, readb, readw, readl, writeb, writew, writel, ktime_get,
  ktime_add_ms,
}
use linux_sdhci_rtt.Device.Poll.{Poll, ready, timed_out, out_of_fuel}
use linux_sdhci_rtt.Device.Quiet.{Quiet, last_write, if-Quiet, writew-Quiet, poll-Quiet_of}
use linux_sdhci_rtt.Device.Keeps.{if_keeps}
use linux_sdhci_rtt.Cvitek.{phy_dly_sts, tune_max_phcode, no_marks}
use linux_sdhci_rtt.Cvitek.Window.{search_window}
use linux_sdhci_rtt.Clock.{choose, calc_clk, get_preset_value}
use linux_sdhci_rtt.Clock.Enable.{
  is_stable, wait_stable, enable_card, enable_pll, enable_clk, set_clock, store_actual,
}
use linux_sdhci_rtt.Card.{Lines, set_bus_width}
use linux_sdhci_rtt.Cvitek.Tuning.{
  max_tuning_cmd_retry_count, tap_word, Results, set_tap, prepare_tuning, wait_soft_reset,
  reset_after_tuning_pass, send_again, try_tap, try_taps, record_tap, use_tap,
  general_execute_tuning,
}
use linux_sdhci_rtt.Cvitek.Pads.Quiet.{pwrsw}

pub set_bus_width-Quiet : (caps8 : Bool) (width : Lines) → Quiet pwrsw (set_bus_width caps8 width)
unfolding set_bus_width readb writeb
set_bus_width-Quiet caps8 width d = refl

readw-Quiet : (reg : ℕ) → Quiet pwrsw (readw reg)
unfolding readw
readw-Quiet reg d = refl

wait_stable-Quiet : (fuel : ℕ) → Quiet pwrsw (wait_stable fuel)
unfolding wait_stable
wait_stable-Quiet fuel d =
    poll-Quiet_of pwrsw (readw clock_control) is_stable (ktime_add_ms (ktime_get d) 150) fuel
      (readw-Quiet clock_control) d

enable_card-Quiet : (p : Poll) → Quiet pwrsw (enable_card p)
unfolding enable_card writew
enable_card-Quiet (ready clk) d = refl
enable_card-Quiet timed_out d = refl
enable_card-Quiet out_of_fuel d = refl

enable_pll-Quiet : (fuel : ℕ) (p : Poll) → Quiet pwrsw (enable_pll fuel p)
unfolding enable_pll writew
enable_pll-Quiet fuel timed_out d = refl
enable_pll-Quiet fuel out_of_fuel d = refl
enable_pll-Quiet fuel (ready clk) d =
    if-Quiet pwrsw (leb spec_410 d.version && d.v4_mode)
      (do
        writew (clear 16 (bit_or clk clock_pll_en) clock_int_stable) clock_control
        wait_stable fuel)
      (ret (ready clk))
      (λ e.
        wait_stable-Quiet fuel
          (writew (clear 16 (bit_or clk clock_pll_en) clock_int_stable) clock_control e).1)
      (λ e. refl) d

enable_clk-Quiet : (fuel clk : ℕ) → Quiet pwrsw (enable_clk fuel clk)
unfolding enable_clk
enable_clk-Quiet fuel clk d =
    let d1 = (writew (bit_or clk clock_int_en) clock_control d).1 in
    let (p, d2) = wait_stable fuel d1 in
    let (q, d3) = enable_pll fuel p d2 in
    enable_card-Quiet q d3
    ∙ enable_pll-Quiet fuel p d2
    ∙ wait_stable-Quiet fuel d1
    ∙ writew-Quiet pwrsw (bit_or clk clock_int_en) clock_control refl d

calc_clk-Quiet : (clock : ℕ) → Quiet pwrsw (calc_clk clock)
unfolding calc_clk choose get_preset_value readw
calc_clk-Quiet clock d = ground arith

store_actual-log : (a : Option ℕ) (d : Device) → (store_actual a d).log ≡ d.log
store_actual-log none d = refl
store_actual-log (some a) d = refl

pub set_clock-Quiet : (fuel clock : ℕ) → Quiet pwrsw (set_clock fuel clock)
unfolding set_clock writew
set_clock-Quiet fuel clock d =
    let d1 = (writew 0 clock_control (record d { actual_clock = 0 })).1 in
    let ((clk, act), d2) = calc_clk clock d1 in
    if_keeps (λ (e : Device). last_write pwrsw e.log) (clock == 0) (ret (ready 0))
      (do (clk, act) ← calc_clk clock; e ← get; put (store_actual act e); enable_clk fuel clk) d d1
      refl
      (enable_clk-Quiet fuel clk (store_actual act d2)
        ∙ ap (last_write pwrsw) (store_actual-log act d2)
        ∙ calc_clk-Quiet clock d1)

readb-Quiet : (reg : ℕ) → Quiet pwrsw (readb reg)
unfolding readb
readb-Quiet reg d = refl

set_tap-Quiet : (tap : ℕ) → Quiet pwrsw (set_tap tap)
unfolding set_tap readw writew readl writel
set_tap-Quiet tap d = refl

wait_soft_reset-Quiet : (n : ℕ) → Quiet pwrsw (wait_soft_reset n)
unfolding wait_soft_reset readb
wait_soft_reset-Quiet zero d = refl
wait_soft_reset-Quiet (suc n) d =
    ground (arith, wait_soft_reset-Quiet n (readb software_reset d).1, readb-Quiet software_reset d)

prepare_tuning-Quiet : Quiet pwrsw prepare_tuning
unfolding prepare_tuning readw writew
prepare_tuning-Quiet d = refl

reset_after_tuning_pass-Quiet : Quiet pwrsw reset_after_tuning_pass
unfolding reset_after_tuning_pass readw writew readb writeb
reset_after_tuning_pass-Quiet d = wait_soft_reset-Quiet d.rounds _

module _ (send : M ℕ) (quiet : Quiet pwrsw send) where
  send_again-Quiet : (left : ℕ) → Quiet pwrsw (send_again send left)
  unfolding send_again
  send_again-Quiet zero d = quiet d
  send_again-Quiet (suc left) d = ground (arith, quiet d, send_again-Quiet left (send d).1)

  try_tap-Quiet : (tap : ℕ) → Quiet pwrsw (try_tap send tap)
  unfolding try_tap
  try_tap-Quiet tap d =
      let d1 = (set_tap tap d).1 in
      let d2 = (readw phy_dly_sts d1).1 in
      send_again-Quiet max_tuning_cmd_retry_count d2
      ∙ readw-Quiet phy_dly_sts d1
      ∙ set_tap-Quiet tap d

  try_taps-Quiet : (n tap : ℕ) (r : Results) → Quiet pwrsw (try_taps send n tap r)
  unfolding try_taps
  try_taps-Quiet zero tap r d = refl
  try_taps-Quiet (suc n) tap r d =
      try_taps-Quiet n (tap + 1) (record_tap tap (try_tap send tap d).0 r) (try_tap send tap d).1
      ∙ try_tap-Quiet tap d

  use_tap-Quiet : (r : Results) → Quiet pwrsw (use_tap send r)
  unfolding use_tap
  use_tap-Quiet r d =
      let tap = tap_word (search_window r.tuning_result).final_tap in
      quiet (set_tap tap d).1 ∙ set_tap-Quiet tap d

  pub general_execute_tuning-Quiet : Quiet pwrsw (general_execute_tuning send)
  unfolding general_execute_tuning
  general_execute_tuning-Quiet d =
      let none_yet : Results = record { tuning_result = no_marks; rx_lead_lag_result = no_marks } in
      let d1 = (prepare_tuning d).1 in
      let (r, d2) = try_taps send tune_max_phcode 0 none_yet d1 in
      let (over, d3) = reset_after_tuning_pass d2 in
      if-Quiet pwrsw over (do t ← use_tap send r; ret (some t)) (ret none) (use_tap-Quiet r)
        (λ e. refl) d3
      ∙ reset_after_tuning_pass-Quiet d2
      ∙ try_taps-Quiet tune_max_phcode 0 none_yet d1
      ∙ prepare_tuning-Quiet d
