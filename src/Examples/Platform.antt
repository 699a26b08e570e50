-- ===== src/Examples/Platform.antt =====
-- The theorems on the CV181x platform, at concrete hosts.
use linux_sdhci_rtt.Base.{
  ℕ, ◌%◌, ◌≡◌, refl, true, false, Option, none, some, List, [], ◌∷◌, arith, ltb, if◌then◌else◌,
  length, u8, has, ◌↔◌,
}
use linux_sdhci_rtt.Regs.{adma2_tran_valid}
use linux_sdhci_rtt.Device.{Device, M, readw, readb, readl, writeb, writew, writel}
use linux_sdhci_rtt.Adma.Fetch.{fetch, read_mem}
use linux_sdhci_rtt.Power.{Vdd}
use linux_sdhci_rtt.Power.Mode.{PowerMode}
use linux_sdhci_rtt.Card.{Lines}
use linux_sdhci_rtt.Cvitek.{cvi_adma_write_desc, restore_delay, set_mask_bit, check_mask_bit}
use linux_sdhci_rtt.Cvitek.Window.{
  search_window, search_lead_lag, search_taps, search_tap, pass_tap, fail_tap, start_at,
  search_lead_lags, ends_window, keep_lead_lag, lag_sample, lead_sample, rate,
}
use linux_sdhci_rtt.Cvitek.Window.Median.{IsMedian}
use linux_sdhci_rtt.Cvitek.Window.LeadLags.{IsFlat, search_lead_lag_zero}
use linux_sdhci_rtt.Cvitek.Tuning.{
  Tuned, tap_word, general_execute_tuning, prepare_tuning, try_taps, try_tap, send_again, set_tap,
  record_tap, reset_after_tuning_pass, wait_soft_reset, use_tap,
}
use linux_sdhci_rtt.Cvitek.Tuning.Marks.{tap_failed, tuning_begins, general_execute_tuning-IsMedian}
use linux_sdhci_rtt.Cvitek.Boundary.{
  AllInBlock, cvi_adma_write_desc-InBlock, fetch-cvi_adma_write_desc,
}
use linux_sdhci_rtt.Cvitek.Pads.{CviHost}
use linux_sdhci_rtt.Cvitek.Pads.Supply.{SdOp, run_ops, TellsSupply, run_ops-TellsSupply}
use linux_sdhci_rtt.Cvitek.Delay.{delay_of, delay-restore_delay}
use linux_sdhci_rtt.Examples.{device}

-- The taps 8 to 15 fail.
abbrev some_marks : List ℕ
some_marks = 0 ∷ 255 ∷ 0 ∷ 0 ∷ 0 ∷ 0 ∷ 0 ∷ 0 ∷ 0 ∷ 0 ∷ 0 ∷ 0 ∷ 0 ∷ 0 ∷ 0 ∷ 0 ∷ []

search_lead_lag_zero_example :
    ((search_lead_lag some_marks).max_lead_lag_size ≡ 0) ↔ IsFlat some_marks 0 128
search_lead_lag_zero_example = search_lead_lag_zero some_marks

-- A card that answers once the delay line has been set often enough.
abbrev late_card : M ℕ
late_card d = (if ltb (length d.log) 203 then 5 else 0, d)

abbrev tuned : Tuned
tuned = record { err = 0; final_tap = 84; rate = none }

tuned_runs : (general_execute_tuning late_card device).0 ≡ some tuned
unfolding general_execute_tuning prepare_tuning try_taps try_tap send_again set_tap record_tap
    set_mask_bit reset_after_tuning_pass wait_soft_reset use_tap search_window search_taps
    search_tap pass_tap fail_tap start_at search_lead_lag search_lead_lags ends_window keep_lead_lag
    lag_sample lead_sample rate check_mask_bit readw readb readl writeb writew writel has
tuned_runs = refl

general_execute_tuning-IsMedian_example :
    (size : ℕ) × ((tap : Option ℕ) × (IsMedian
          (tap_failed late_card (tuning_begins late_card device))
          128
          size
          tap
        × (tuned.final_tap ≡ u8 (tap_word tap))))
general_execute_tuning-IsMedian_example =
    general_execute_tuning-IsMedian late_card device tuned tuned_runs

-- 4 KiB on both sides of the boundary at 128 MiB.
cvi_adma_write_desc-InBlock_example :
    AllInBlock true (cvi_adma_write_desc true 0 0x7fff800 4096 adma2_tran_valid)
cvi_adma_write_desc-InBlock_example =
    cvi_adma_write_desc-InBlock true 0 0x7fff800 4096 (omega arith) (omega arith) (omega arith)

fetch-cvi_adma_write_desc_example :
    fetch true (λ a. a % 256) (cvi_adma_write_desc true 0 0x7fff800 4096 adma2_tran_valid)
    ≡ read_mem (λ a. a % 256) 0x7fff800 4096
fetch-cvi_adma_write_desc_example =
    fetch-cvi_adma_write_desc true 0 0x7fff800 4096 (omega arith) (omega arith) (omega arith)
      (λ a. a % 256)

abbrev sd_host : CviHost
sd_host = record { dev = device; final_tap = 0; sdio0_voltage_1_8_v = 0 }

abbrev sd_calls : List SdOp
sd_calls =
    SdOp.op_power PowerMode.power_on Vdd.vdd_32_33
    ∷ SdOp.op_clock 400000
    ∷ SdOp.op_width false Lines.four
    ∷ SdOp.op_switch
    ∷ SdOp.op_tune
    ∷ SdOp.op_reset 6
    ∷ SdOp.op_power PowerMode.power_off Vdd.vdd_32_33
    ∷ []

run_ops-TellsSupply_example : TellsSupply (run_ops (λ d. (0, d)) sd_calls sd_host)
run_ops-TellsSupply_example = run_ops-TellsSupply (λ d. (0, d)) (λ d. refl) sd_calls sd_host refl

-- A controller in the mode SDR104.
abbrev fast_device : Device
fast_device = record device { hw = λ n reg. 3 }

delay-restore_delay_example :
    delay_of (restore_delay 84 fast_device).1.log ≡ delay_of (set_tap 84 device).1.log
unfolding readw
delay-restore_delay_example = delay-restore_delay 84 fast_device device (omega arith) refl
