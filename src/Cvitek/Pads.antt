-- ===== src/Cvitek/Pads.antt =====
-- platform/cvitek/sdhci-cv181x.c: sdhci_cv181x_sd_voltage_restore, _emmc_setup_pad, _sd_setup_pad,
-- _sd_setup_io, _sd_set_power and _sd_voltage_switch. The blocks of the chip beside the controller stand
-- at their physical addresses, which no register of the controller has.
pub mod Quiet
pub mod Supply
pub mod Steady
use linux_sdhci_rtt.Base.{
  ℕ, zero, suc, ◌+◌, Bool, true, false, ◌&&◌, if◌then◌else◌, ◌==◌, bit_and, bit_or, clear,
}
use linux_sdhci_rtt.Device.{Device, Timing, M, ◌>>=◌, ◌>>◌, ret, get, readl, readb, writel, writeb}
use linux_sdhci_rtt.Reset.{get_cd}
use linux_sdhci_rtt.Power.{Vdd, set_power_noreg}
use linux_sdhci_rtt.Power.Mode.{PowerMode}
use linux_sdhci_rtt.Cvitek.{
  vendor_mshc_ctrl_r, phy_tx_rx_dly, phy_config, sd_reset, general_set_uhs_signaling,
}

abbrev pub top_base : ℕ
top_base = 0x03000000

abbrev pub offset_sd_pwrsw_ctrl : ℕ
offset_sd_pwrsw_ctrl = 0x1f4

abbrev pub pinmux_base : ℕ
pinmux_base = 0x03001000

-- `struct sdhci_cvi_host`, with the controller.
pub record CviHost : Type 0 where
  pub dev : Device
  pub final_tap : ℕ
  pub sdio0_voltage_1_8_v : ℕ

abbrev pub on_cvi : {A : Type 0} → M A → CviHost → CviHost
on_cvi m c = record c { dev = (m c.dev).1 }

-- `writel(bits | (readl(PWRSW) & 0xFFFFFFF0), PWRSW)`.
unfoldable pub set_pwrsw : ℕ → M (Unit {0})
set_pwrsw bits = do
  old ← readl (top_base + offset_sd_pwrsw_ctrl)
  writel (bit_or bits (bit_and old 0xfffffff0)) (top_base + offset_sd_pwrsw_ctrl)

-- The setting of the delay line for DS and HS.
unfoldable pub restore_ds_hs : M (Unit {0})
restore_ds_hs = do
  ctrl ← readl vendor_mshc_ctrl_r
  writel (bit_or (bit_or (bit_or ctrl 0x2) 0x100) 0x200) vendor_mshc_ctrl_r
  writel 0x1000100 phy_tx_rx_dly
  writel 1 phy_config

-- sdhci_cv181x_sd_voltage_restore.
unfoldable pub sd_voltage_restore : Bool → CviHost → CviHost
unfolding set_pwrsw restore_ds_hs
sd_voltage_restore true c =
    on_cvi restore_ds_hs (record (on_cvi (set_pwrsw 0xe) c) { sdio0_voltage_1_8_v = 0 })
sd_voltage_restore false c =
    on_cvi restore_ds_hs (if c.sdio0_voltage_1_8_v == 0 then on_cvi (set_pwrsw 0x9) c else c)

-- sdhci_cv181x_emmc_setup_pad.
unfoldable pub emmc_setup_pad : M (Unit {0})
emmc_setup_pad = do
  writeb 0x0 (pinmux_base + 0x48)
  writeb 0x0 (pinmux_base + 0x50)
  writeb 0x0 (pinmux_base + 0x5c)
  writeb 0x0 (pinmux_base + 0x54)
  writeb 0x0 (pinmux_base + 0x60)
  writeb 0x0 (pinmux_base + 0x4c)
  writeb 0x0 (pinmux_base + 0x58)

-- sdhci_cv181x_sd_setup_pad.
unfoldable pub sd_setup_pad : Bool → M (Unit {0})
sd_setup_pad bunplug = do
  let val = if bunplug then 0x3 else 0x0
  writeb 0x0 (pinmux_base + 0x34)
  writeb 0x0 (pinmux_base + 0x38)
  writeb val (pinmux_base + 0x1c)
  writeb val (pinmux_base + 0x20)
  writeb val (pinmux_base + 0x24)
  writeb val (pinmux_base + 0x28)
  writeb val (pinmux_base + 0x2c)
  writeb val (pinmux_base + 0x30)

-- `writeb((readb(pad) | raise_bit) & ~(down_bit), pad)`.
unfoldable pub pull : ℕ → ℕ → ℕ → M (Unit {0})
pull raise_bit down_bit pad = do
  old ← readb pad
  writeb (clear 8 (bit_or old raise_bit) down_bit) pad

-- sdhci_cv181x_sd_setup_io.
unfoldable pub sd_setup_io : Bool → M (Unit {0})
unfolding pull
sd_setup_io reset = do
  let raise_bit = if reset then 0x8 else 0x4
  let down_bit = if reset then 0x4 else 0x8
  pull 0x4 0x8 (pinmux_base + 0x900)
  pull 0x8 0x4 (pinmux_base + 0x904)
  pull 0x8 0x4 (pinmux_base + 0xa00)
  pull raise_bit down_bit (pinmux_base + 0xa04)
  pull raise_bit down_bit (pinmux_base + 0xa08)
  pull raise_bit down_bit (pinmux_base + 0xa0c)
  pull raise_bit down_bit (pinmux_base + 0xa10)
  pull raise_bit down_bit (pinmux_base + 0xa14)

-- sdhci_cv181x_sd_set_power.
unfoldable pub sd_set_power : PowerMode → Vdd → CviHost → CviHost
unfolding sd_voltage_restore sd_setup_pad sd_setup_io get_cd set_power_noreg
sd_set_power PowerMode.power_on vdd c =
    let (present, dev) = get_cd c.dev in
    let c1 = record c { dev = dev } in
    if present
    then on_cvi (sd_setup_io false) (
        on_cvi (sd_setup_pad false)
          (sd_voltage_restore false (on_cvi (set_power_noreg true vdd) c1)))
    else c1
sd_set_power PowerMode.power_off vdd c =
    on_cvi (set_power_noreg false vdd)
      (sd_voltage_restore true (on_cvi (sd_setup_io true) (on_cvi (sd_setup_pad true) c)))
sd_set_power _ vdd c = c

-- The clock pad drives at full strength.
unfoldable pub max_clk_strength : M (Unit {0})
max_clk_strength = do
  old ← readb (pinmux_base + 0xa00)
  writeb (bit_or (bit_or (bit_or old 0x80) 0x40) 0x20) (pinmux_base + 0xa00)

-- sdhci_cv181x_sd_voltage_switch, with the read for a message.
unfoldable pub sd_voltage_switch : CviHost → CviHost
unfolding set_pwrsw max_clk_strength
sd_voltage_switch c =
    record (on_cvi (readl (top_base + offset_sd_pwrsw_ctrl))
      (on_cvi (set_pwrsw 0xb) (on_cvi max_clk_strength c))) { sdio0_voltage_1_8_v = 1 }
