-- ===== src/Pm/Laws.antt =====
-- What sdhci_runtime_resume_host leaves.
use linux_sdhci_rtt.Base.{ℕ, ◌≡◌, Bool, false}
use linux_sdhci_rtt.Device.{Device}
use linux_sdhci_rtt.Device.Keeps.{Keeps}
use linux_sdhci_rtt.Host.{Host}
use linux_sdhci_rtt.Ios.{Ios}
use linux_sdhci_rtt.Ios.Clocks.{Ends}

-- A live controller.
abbrev IsLive : ℕ × (Bool × ℕ) → Type 0
IsLive v = (v.1.0 ≡ false)
