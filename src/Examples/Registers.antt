-- ===== src/Examples/Registers.antt =====
-- The theorems on registers, at concrete controllers.
use linux_sdhci_rtt.Base.{
  ltb, ℕ, ◌≡◌, refl, ◌*◌, ◌/◌, ◌%◌, ◌^◌, ◌≤◌, true, false, inr, some, arith, u32, if◌then◌else◌,
  has, ◌≢◌,
}
use linux_sdhci_rtt.Device.{Device, readb, ktime_get, ktime_after}
use linux_sdhci_rtt.Device.Poll.{poll, poll_ends, out_of_fuel}
use linux_sdhci_rtt.Regs.{quirk_unstable_ro_detect, software_reset, quirk2_rsp_136_has_crc}
use linux_sdhci_rtt.Clock.{v2_choice, base_choice, v3_choice, actual, clock_bits}
use linux_sdhci_rtt.Clock.Encoding.{sd_clock}
use linux_sdhci_rtt.Clock.Best.{base_choice-best, v3_choice-prog_exact, v3_choice-prog_overrun}
use linux_sdhci_rtt.Clock.Powers.{v2_choice-best}
use linux_sdhci_rtt.Clock.Laws.{base_choice-exact}
use linux_sdhci_rtt.Timeout.{count_for}
use linux_sdhci_rtt.Timeout.Laws.{count_for-Timely, Timely}
use linux_sdhci_rtt.Response.{read_rsp_136}
use linux_sdhci_rtt.Response.Laws.{read_rsp_136-value, resp_value, registers_value}
use linux_sdhci_rtt.Power.{Vdd, power_bits, set_power_noreg}
use linux_sdhci_rtt.Power.Laws.{set_power_noreg-agrees, last_power, power_value}
use linux_sdhci_rtt.Card.{get_ro}
use linux_sdhci_rtt.Card.Laws.{ro_rounds, get_ro-majority}
use linux_sdhci_rtt.Examples.{device}

-- A base clock of 200 MHz and a request of 400 kHz, against the divider 512.
base_choice-best_example :
    let r = (base_choice 0 200000000 400000).real_div in
    (200000000 / r ≤ 400000) × (200000000 / 512 ≤ 200000000 / r)
base_choice-best_example =
    base_choice-best 0 200000000 400000 512 (omega arith) (inr (255, refl)) (omega arith)

base_choice-exact_example :
    let c = base_choice 0 200000000 400000 in
    actual 200000000 c ≡ some (sd_clock 200000000 0 (clock_bits c))
unfolding has
base_choice-exact_example = base_choice-exact 0 200000000 0 400000 (omega arith) refl

v3_choice-prog_exact_example :
    let c = v3_choice 0 100000000 2 50000000 in
    (actual 100000000 c ≡ some (sd_clock 100000000 2 (clock_bits c)))
    × (sd_clock 100000000 2 (clock_bits c) ≤ 50000000)
v3_choice-prog_exact_example =
    v3_choice-prog_exact 0 100000000 2 50000000 (λ e. omega arith) (omega arith)

-- A programmable clock of 410 MHz and a request of 400 kHz.
v3_choice-prog_overrun_example :
    let c = v3_choice 0 205000000 2 400000 in
    (actual 205000000 c ≡ some (u32 (205000000 * 2) / 1025))
    × (sd_clock 205000000 2 (clock_bits c) ≡ u32 (205000000 * 2))
v3_choice-prog_overrun_example =
    v3_choice-prog_overrun 0 205000000 2 400000 (λ e. omega arith) (omega arith) (omega arith)

count_for-Timely_example : Timely (8192000 / 1000) 500000 (count_for 1000 500000)
count_for-Timely_example = count_for-Timely 1000 500000 (omega arith)

-- A controller that answers the register's number.
read_rsp_136-value_example :
    let d = record device { hw = λ n reg. reg } in
    resp_value (read_rsp_136 d).0 ≡ (
      if has 0 quirk2_rsp_136_has_crc
      then registers_value d
      else registers_value d * 2 ^ 8 % 2 ^ 128)
read_rsp_136-value_example = read_rsp_136-value (record device { hw = λ n reg. reg })

-- A reset that the controller never ends is given up.
poll_ends_example : (poll (readb software_reset) (λ v. false) 100000000 150 device).0 ≢ out_of_fuel
poll_ends_example =
    poll_ends (readb software_reset) (λ d. unfold readb in refl) (λ v. false) 100000000 101 150
      device (omega arith) (unfold ktime_get ktime_after in refl)

-- A controller that is off is switched on at 3.3 V.
set_power_noreg-agrees_example :
    let d' = (set_power_noreg true Vdd.vdd_33_34 device).1 in
    (d'.pwr ≡ (if true then power_bits Vdd.vdd_33_34 else 0))
    × (last_power 0 d'.log ≡ power_value d'.pwr)
set_power_noreg-agrees_example = set_power_noreg-agrees true Vdd.vdd_33_34 0 device refl

-- A base clock of 48 MHz and a request of 400 kHz: the divider 128.
v2_choice-best_example :
    let c = v2_choice 48000000 400000 in
    (actual 48000000 c ≡ some (sd_clock 48000000 0 (clock_bits c)))
    × (48000000 / c.real_div ≤ 400000)
    × ((k : ℕ) → 48000000 / 2 ^ k ≤ 400000 → c.real_div ≤ 2 ^ k)
v2_choice-best_example = v2_choice-best 48000000 0 400000 (omega arith) (omega arith)

-- A controller with an unstable switch that always answers 0: read-only, with a bit that is not set.
abbrev unstable_device : Device
unstable_device = record device { quirks = quirk_unstable_ro_detect }

unstable_device-IsUnstable : has unstable_device.quirks quirk_unstable_ro_detect ≡ true
unfolding has
unstable_device-IsUnstable = refl

get_ro-majority_example : (get_ro unstable_device).0 ≡ ltb 2 (ro_rounds 5 unstable_device)
get_ro-majority_example = get_ro-majority unstable_device unstable_device-IsUnstable
