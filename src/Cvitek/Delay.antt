-- ===== src/Cvitek/Delay.antt =====
-- platform/cvitek/sdhci-cv181x.c: the speed mode of sdhci_cvi_general_set_uhs_signaling, and the delay line
-- that the tuning sets and the resets set again.
use linux_sdhci_rtt.Base.{
  ℕ, ◌+◌, ◌*◌, ◌/◌, ◌%◌, ◌^◌, ◌<◌, ◌≡◌, ap, ◌∙◌, Bool, true, false, ◌&&◌, List, [], ◌∷◌, ◌==◌,
  if◌then◌else◌, leb, bit_and, bit_or, clear, u32, arith, bit_and_step, bit_and_low, bit_or_low,
  zero-bit_or, ◌<<<◌,
}
use linux_sdhci_rtt.Regs.{host_control2, ctrl_uhs_mask, ctrl_uhs_sdr104}
use linux_sdhci_rtt.Device.{Device, Timing, Write, readw, readl, writel, writew}
use linux_sdhci_rtt.Cvitek.{
  general_uhs_mode, general_ctrl_2, is_tuned, phy_tx_rx_dly, restore_delay, tuned_delay,
}
use linux_sdhci_rtt.Cvitek.Tuning.{set_tap}

-- The mode is the lowest three bits.
clear_mode : (x : ℕ) → clear 16 x ctrl_uhs_mask ≡ x / 8 % 8192 * 2 ^ 3 + 0
unfolding clear
clear_mode x = omega (
  arith,
  bit_and_step x 0xfff8,
  bit_and_step (x / 2) 0x7ffc,
  bit_and_step (x / 2 / 2) 0x3ffe,
  bit_and_low 13 (x / 2 / 2 / 2),
)

with_mode :
    (x mode : ℕ) → mode < 8 → bit_or (clear 16 x ctrl_uhs_mask) mode ≡ x / 8 % 8192 * 8 + mode
with_mode x mode lt =
    ap (λ (t : ℕ). bit_or t mode) (clear_mode x)
    ∙ bit_or_low 3 (x / 8 % 8192) 0 mode (omega arith) lt
    ∙ ap (λ (t : ℕ). x / 8 % 8192 * 8 + t) (zero-bit_or mode)

general_uhs_mode-lt : (uhs : Timing) → general_uhs_mode uhs < 8
unfolding general_uhs_mode
general_uhs_mode-lt uhs = ground arith

-- The speed mode that is selected is the timing's, and none if the timing needs tuning and the clock is at
-- most 100 MHz; the other bits of the register stay.
general_ctrl_2_lem :
    (clock : ℕ) (uhs : Timing) (old : ℕ)
    → general_ctrl_2 clock uhs old
      ≡ old / 8 % 8192 * 8
        + (if leb clock 100000000 && is_tuned uhs then 0 else general_uhs_mode uhs)
unfolding general_ctrl_2
general_ctrl_2_lem clock uhs old =
    picked (leb clock 100000000 && is_tuned uhs)
      (with_mode old (general_uhs_mode uhs) (general_uhs_mode-lt uhs))
  where
    picked :
        (b : Bool)
        → bit_or (clear 16 old ctrl_uhs_mask) (general_uhs_mode uhs)
          ≡ old / 8 % 8192 * 8 + general_uhs_mode uhs
        → (if b
            then clear 16 (bit_or (clear 16 old ctrl_uhs_mask) (general_uhs_mode uhs)) ctrl_uhs_mask
            else bit_or (clear 16 old ctrl_uhs_mask) (general_uhs_mode uhs))
          ≡ old / 8 % 8192 * 8 + (if b then 0 else general_uhs_mode uhs)
    picked true e = omega (
      arith,
      clear_mode (bit_or (clear 16 old ctrl_uhs_mask) (general_uhs_mode uhs)),
      e,
      general_uhs_mode-lt uhs,
    )
    picked false e = e

-- The newest value in the register of the delay line.
abbrev pub delay_of : List Write → ℕ
delay_of [] = 0
delay_of (w ∷ ws) = if w.reg == phy_tx_rx_dly then w.val else delay_of ws

restore_delay_tuned :
    (tap : ℕ) (d : Device)
    → (bit_and (readw host_control2 d).0 ctrl_uhs_mask == ctrl_uhs_sdr104) ≡ true
    → restore_delay tap d ≡ tuned_delay tap (readw host_control2 d).1
unfolding restore_delay
restore_delay_tuned tap d fast = ground (arith, fast)

-- In the mode SDR104 a reset gives the delay line the value that the tuning gave it, if the tuning has found
-- a tap.
pub delay-restore_delay :
    (tap : ℕ) (d e : Device)
    → tap < 128
    → (bit_and (readw host_control2 d).0 ctrl_uhs_mask == ctrl_uhs_sdr104) ≡ true
    → delay_of (restore_delay tap d).1.log ≡ delay_of (set_tap tap e).1.log
unfolding set_tap tuned_delay readl writel writew readw
delay-restore_delay tap d e lt fast =
    ap (λ (p : Unit {0} × Device). delay_of p.1.log) (restore_delay_tuned tap d fast)
    ∙ ap (λ (t : ℕ). u32 (bit_or 0x100 (t <<< 16))) (bit_and_low 7 tap ∙ small)
  where
    small : tap % 2 ^ 7 ≡ tap
    small = omega arith
