-- ===== src/Cvitek/Tuning.antt =====
-- platform/cvitek/sdhci-cv181x.c: sdhci_cvi_cv181x_set_tap, reset_after_tuning_pass and
-- sdhci_cv181x_general_execute_tuning. `send` is mmc_send_tuning, which tells 0 for success; mdelay only
-- waits. The loop of reset_after_tuning_pass has no deadline: `rounds` of it are followed.
pub mod Marks
use linux_sdhci_rtt.Base.{
  ℕ, zero, suc, ◌+◌, ◌*◌, ◌^◌, ◌-◌, Bool, true, false, Option, none, some, List, bit_and, bit_or,
  clear, has, ◌==◌, ◌<<<◌, u8, u32, if◌then◌else◌,
}
use linux_sdhci_rtt.Regs.{host_control2, clock_control, int_status, software_reset}
use linux_sdhci_rtt.Device.{
  Device, M, ◌>>=◌, ◌>>◌, ret, get, readl, readw, readb, writel, writew, writeb,
}
use linux_sdhci_rtt.Cvitek.{
  vendor_mshc_ctrl_r, phy_tx_rx_dly, phy_dly_sts, phy_config, set_mask_bit, no_marks,
  tune_max_phcode,
}
use linux_sdhci_rtt.Cvitek.Window.{Window, LeadLag, search_window, search_lead_lag, rate}

unfoldable pub set_tap : ℕ → M (Unit {0})
set_tap tap = do
  off ← readw clock_control
  writew (clear 16 off 0x4) clock_control
  ctrl ← readl vendor_mshc_ctrl_r
  writel (clear 32 ctrl 0x2) vendor_mshc_ctrl_r
  writel (bit_or 0x100 (tap <<< 16)) phy_tx_rx_dly
  writel 0 phy_config
  on ← readw clock_control
  writew (bit_or on 0x4) clock_control

-- `while (sdhci_readb(host, SDHCI_SOFTWARE_RESET) & 0x3);`, and whether it ends.
unfoldable pub wait_soft_reset : ℕ → M Bool
wait_soft_reset zero d = (false, d)
wait_soft_reset (suc n) d =
    let (v, d') = readb software_reset d in
    elim (has v 0x3) [ true ↦ wait_soft_reset n d' | false ↦ (true, d') ]

unfoldable pub reset_after_tuning_pass : M Bool
reset_after_tuning_pass = do
  status ← readw int_status
  writew (clear 16 status 0x20) int_status
  before ← readb software_reset
  writeb (bit_or before 0x4) software_reset
  between ← readb software_reset
  writeb (bit_or between 0x2) software_reset
  d ← get
  wait_soft_reset d.rounds

-- Before the first tap: the tuned clock and the driver strength are deselected, between two reads for
-- messages.
unfoldable pub prepare_tuning : M (Unit {0})
prepare_tuning = do
  old ← readw host_control2
  a ← readw host_control2
  writew (clear 16 a 0x80) host_control2
  b ← readw host_control2
  writew (clear 16 b 0x30) host_control2
  now ← readw host_control2
  ret tt

-- MAX_TUNING_CMD_RETRY_COUNT.
abbrev pub max_tuning_cmd_retry_count : ℕ
max_tuning_cmd_retry_count = 50

-- The two masks of 128 bits.
pub record Results : Type 0 where
  pub tuning_result : List ℕ
  pub rx_lead_lag_result : List ℕ

unfoldable pub record_tap : ℕ → ℕ × ℕ → Results → Results
unfolding set_mask_bit
record_tap tap (err, lead_lag) r = record {
  tuning_result = if err == 0 then r.tuning_result else set_mask_bit r.tuning_result tap;
  rx_lead_lag_result =
      if lead_lag == 0 then r.rx_lead_lag_result else set_mask_bit r.rx_lead_lag_result tap;
}

-- What mmc_send_tuning tells, and the plan to send again after a success, `left` times.
module _ (send : M ℕ) where
  unfoldable pub send_again : ℕ → M ℕ
  send_again zero d = send d
  send_again (suc left) d =
      let (err, d') = send d in elim (err == 0) [ true ↦ send_again left d' | false ↦ (err, d') ]

  -- The tap is set and tried; the lead/lag sample is read in between.
  unfoldable pub try_tap : ℕ → M (ℕ × ℕ)
  try_tap tap = do
    set_tap tap
    sample ← readw phy_dly_sts
    err ← send_again max_tuning_cmd_retry_count
    ret (err, bit_and sample 0x2)

  -- `while (min < TUNE_MAX_PHCODE)`, `n` rounds from the tap `min` on.
  unfoldable pub try_taps : ℕ → ℕ → Results → M Results
  try_taps zero tap r d = (r, d)
  try_taps (suc n) tap r d =
      let (seen, d') = try_tap tap d in try_taps n (tap + 1) (record_tap tap seen r) d'

-- What the function returns, the tap as it is cached, `cvi_host->final_tap`, and the rate that is printed:
-- its divisor can be 0, which is `none`, and the rest does not depend on it.
pub record Tuned : Type 0 where
  pub err : ℕ
  pub final_tap : ℕ
  pub rate : Option ℕ

-- `final_tap` is an `s32` that starts at -1: as an unsigned number, and as a byte.
abbrev pub tap_word : Option ℕ → ℕ
tap_word none = 2 ^ 32 - 1
tap_word (some tap) = tap

module _ (send : M ℕ) where
  -- After the search: the final tap is set, and tried once.
  unfoldable pub use_tap : Results → M Tuned
  use_tap r = do
    let w = search_window r.tuning_result
    set_tap (tap_word w.final_tap)
    err ← send
    ret (record {
      err = err;
      final_tap = u8 (tap_word w.final_tap);
      rate = rate w.max_window_size (search_lead_lag r.rx_lead_lag_result).max_lead_lag_size;
    })

  -- No answer is a wait for the reset that does not end.
  unfoldable pub general_execute_tuning : M (Option Tuned)
  general_execute_tuning = do
    prepare_tuning
    r ←
        try_taps send tune_max_phcode 0
          (record { tuning_result = no_marks; rx_lead_lag_result = no_marks })
    over ← reset_after_tuning_pass
    if over then (do t ← use_tap r; ret (some t)) else ret none
