-- ===== src/Ios/Ends.antt =====
-- How sdhci_set_ios ends.
use linux_sdhci_rtt.Base.{bit_or}
use linux_sdhci_rtt.Regs.{reset_cmd, reset_data}
use linux_sdhci_rtt.Device.{Device, M, ◌>>=◌, ◌>>◌}
use linux_sdhci_rtt.Reset.{do_reset}
use linux_sdhci_rtt.Ios.{Ops, Ios}
use linux_sdhci_rtt.Ios.Laws.{KeepsCore}

module _ (ops : Ops) where
  module _ (law : KeepsCore ops) where
    abbrev circuits : M (Unit {0})
    circuits = do_reset (bit_or reset_cmd reset_data)
