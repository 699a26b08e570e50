-- ===== src/Cvitek.antt =====
-- platform/cvitek/sdhci-cv181x.c: the constants of the CV181x platform, sdhci_cvi_general_set_uhs_signaling,
-- cvi_adma_write_desc, and the masks that its tuning keeps.
pub mod Mask
pub mod Window
pub mod Tuning
pub mod Pads
pub mod Boundary
pub mod Delay
pub mod Emmc
use linux_sdhci_rtt.Base.{
  ℕ, zero, suc, ◌+◌, ◌-◌, ◌*◌, ◌^◌, ◌/◌, ◌%◌, bit_and, bit_or, List, [], ◌∷◌, ◌==◌, ◌<<<◌, u8, u32,
  u64, clear, has, leb, Bool, true, false, ◌&&◌, ◌||◌, if◌then◌else◌,
}
use linux_sdhci_rtt.Regs.{
  host_control2, ctrl_uhs_mask, ctrl_uhs_sdr12, ctrl_uhs_sdr25, ctrl_uhs_sdr50, ctrl_uhs_sdr104,
  ctrl_uhs_ddr50, int_enable, signal_enable,
}
use linux_sdhci_rtt.Device.{Device, Timing, M, ◌>>=◌, ◌>>◌, ret, get, readl, readw, writel, writew}
use linux_sdhci_rtt.Adma.{Desc, adma_write_desc}
use linux_sdhci_rtt.Reset.{reset}

abbrev pub vendor_mshc_ctrl_r : ℕ
vendor_mshc_ctrl_r = 0x200

abbrev pub phy_tx_rx_dly : ℕ
phy_tx_rx_dly = 0x240

abbrev pub phy_dly_sts : ℕ
phy_dly_sts = 0x248

abbrev pub phy_config : ℕ
phy_config = 0x24c

-- The mask is four words of 32 bits, which the code reads as sixteen bytes.
abbrev byte_at : ℕ → List ℕ → ℕ
byte_at n [] = 0
byte_at zero (b ∷ bs) = b
byte_at (suc n) (b ∷ bs) = byte_at n bs

abbrev or_byte : ℕ → ℕ → List ℕ → List ℕ
or_byte n m [] = []
or_byte zero m (b ∷ bs) = u8 (bit_or b m) ∷ bs
or_byte (suc n) m (b ∷ bs) = b ∷ or_byte n m bs

-- CHECK_MASK_BIT.
unfoldable pub check_mask_bit : List ℕ → ℕ → ℕ
check_mask_bit mask i = bit_and (byte_at (i / 8) mask) (1 <<< (i % 8))

-- SET_MASK_BIT.
unfoldable pub set_mask_bit : List ℕ → ℕ → List ℕ
set_mask_bit mask i = or_byte (i / 8) (1 <<< (i % 8)) mask

abbrev pub tune_max_phcode : ℕ
tune_max_phcode = 128

abbrev pub tap_window_thld : ℕ
tap_window_thld = 20

-- `u32 tuning_result[4] = {0, 0, 0, 0}`.
abbrev pub no_marks : List ℕ
no_marks = 0 ∷ 0 ∷ 0 ∷ 0 ∷ 0 ∷ 0 ∷ 0 ∷ 0 ∷ 0 ∷ 0 ∷ 0 ∷ 0 ∷ 0 ∷ 0 ∷ 0 ∷ 0 ∷ []

-- The mode of a timing in sdhci_cvi_general_set_uhs_signaling, which has no case for HS400.
unfoldable pub general_uhs_mode : Timing → ℕ
general_uhs_mode Timing.uhs_sdr12 = ctrl_uhs_sdr12
general_uhs_mode Timing.uhs_sdr25 = ctrl_uhs_sdr25
general_uhs_mode Timing.uhs_sdr50 = ctrl_uhs_sdr50
general_uhs_mode Timing.mmc_hs200 = ctrl_uhs_sdr104
general_uhs_mode Timing.uhs_sdr104 = ctrl_uhs_sdr104
general_uhs_mode Timing.uhs_ddr50 = ctrl_uhs_ddr50
general_uhs_mode Timing.mmc_ddr52 = ctrl_uhs_ddr50
general_uhs_mode _ = 0

-- The timings that need tuning, for which a slow clock selects no mode.
abbrev pub is_tuned : Timing → Bool
is_tuned Timing.mmc_hs400 = true
is_tuned Timing.mmc_hs200 = true
is_tuned Timing.uhs_sdr104 = true
is_tuned _ = false

-- The value of the control register.
unfoldable pub general_ctrl_2 : ℕ → Timing → ℕ → ℕ
unfolding general_uhs_mode
general_ctrl_2 clock uhs old =
    let ctrl_2 = bit_or (clear 16 old ctrl_uhs_mask) (general_uhs_mode uhs) in
    if leb clock 100000000 && is_tuned uhs then clear 16 ctrl_2 ctrl_uhs_mask else ctrl_2

unfoldable pub general_set_uhs_signaling : Timing → M (Unit {0})
unfolding general_ctrl_2
general_set_uhs_signaling uhs = do
  old ← readw host_control2
  d ← get
  writew (general_ctrl_2 d.clock uhs old) host_control2

abbrev pub sz_128m : ℕ
sz_128m = 0x08000000

-- BOUNDARY_OK.
unfoldable pub boundary_ok : ℕ → ℕ → Bool
boundary_ok addr len = bit_or addr (sz_128m - 1) == bit_or (u64 (addr + len - 1)) (sz_128m - 1)

-- cvi_adma_write_desc: two descriptors for bytes on both sides of a boundary of 128 MiB.
unfoldable pub cvi_adma_write_desc : Bool → ℕ → ℕ → ℕ → ℕ → List Desc
unfolding boundary_ok adma_write_desc
cvi_adma_write_desc use_64 old addr len cmd =
    if (len == 0) || boundary_ok addr len
    then adma_write_desc use_64 old addr len cmd ∷ []
    else (let tmplen = sz_128m - bit_and addr (sz_128m - 1) in
        adma_write_desc use_64 old addr tmplen cmd
        ∷ adma_write_desc use_64 old (u64 (addr + tmplen)) (len - tmplen) cmd
        ∷ [])

-- sdhci_cvi_reset_helper.
unfoldable pub reset_helper : ℕ → M (Unit {0})
unfolding reset
reset_helper mask = do
  writel 0 int_enable
  writel 0 signal_enable
  reset mask
  d ← get
  writel d.ier int_enable
  writel d.ier signal_enable

-- What the resets of the eMMC and of the SD host have in common after sdhci_cvi_reset_helper: the delay
-- line gets the tuned tap back in the mode SDR104, and the setting for DS and HS otherwise.
unfoldable pub tuned_delay : ℕ → M (Unit {0})
tuned_delay final_tap = do
  ctrl ← readl vendor_mshc_ctrl_r
  writel (clear 32 ctrl 0x2) vendor_mshc_ctrl_r
  config ← readl phy_config
  writel (clear 32 config 0x1) phy_config
  writel (bit_or 0x100 (bit_and final_tap 0x7f <<< 16)) phy_tx_rx_dly

unfoldable pub default_delay : M (Unit {0})
default_delay = do
  ctrl ← readl vendor_mshc_ctrl_r
  writel (bit_or ctrl 0x2) vendor_mshc_ctrl_r
  config ← readl phy_config
  writel (bit_or config 0x1) phy_config
  writel 0x1000100 phy_tx_rx_dly

unfoldable pub restore_delay : ℕ → M (Unit {0})
restore_delay final_tap = do
  ctrl_2 ← readw host_control2
  if bit_and ctrl_2 ctrl_uhs_mask == ctrl_uhs_sdr104 then tuned_delay final_tap else default_delay

-- sdhci_cv181x_emmc_reset.
unfoldable pub emmc_reset : ℕ → ℕ → M (Unit {0})
unfolding reset_helper restore_delay
emmc_reset final_tap mask = do
  reset_helper mask
  ctrl ← readl vendor_mshc_ctrl_r
  writel (bit_or ctrl 0x1) vendor_mshc_ctrl_r
  restore_delay final_tap

-- sdhci_cv181x_sd_reset.
unfoldable pub sd_reset : ℕ → ℕ → M (Unit {0})
unfolding reset_helper restore_delay
sd_reset final_tap mask = do reset_helper mask; restore_delay final_tap
