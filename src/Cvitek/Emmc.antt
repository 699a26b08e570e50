-- ===== src/Cvitek/Emmc.antt =====
-- platform/cvitek/sdhci-cv181x.c: sdhci_cv181x_emmc_ops, the functions that sdhci_set_ios and the voltage switch
-- call for the eMMC host. It sets no set_power, so that sdhci_set_power of sdhci.c is called, and the card has no
-- regulator. `caps8` is the capability MMC_CAP_8_BIT_DATA.
pub mod Laws
use linux_sdhci_rtt.Base.{ℕ, Bool, true, false}
use linux_sdhci_rtt.Device.{Device, M, ◌>>=◌, ◌>>◌, ret, get}
use linux_sdhci_rtt.Clock.Enable.{set_clock}
use linux_sdhci_rtt.Card.{set_bus_width}
use linux_sdhci_rtt.Power.{Vdd, set_power}
use linux_sdhci_rtt.Power.Mode.{PowerMode}
use linux_sdhci_rtt.Cvitek.{general_set_uhs_signaling}
use linux_sdhci_rtt.Ios.{Ops}

-- `mode != MMC_POWER_OFF`.
abbrev pub is_on : PowerMode → Bool
is_on PowerMode.power_off = false
is_on _ = true

-- sdhci_cvi_emmc_voltage_switch only prints.
unfoldable pub emmc_ops : Bool → Ops
emmc_ops caps8 = record {
  set_clock = λ clock. (do d ← get; p ← set_clock d.rounds clock; ret tt);
  set_power = λ mode vdd. set_power false (is_on mode) vdd;
  set_bus_width = set_bus_width caps8;
  set_uhs_signaling = general_set_uhs_signaling;
  voltage_switch = ret tt;
}
