-- ===== src/Examples/Sleep.antt =====
-- The theorems on suspend, resume and set-up, at concrete hosts.
use linux_sdhci_rtt.Base.{◌&&◌, ◌||◌, some, none, true, false}
use linux_sdhci_rtt.Pm.{System, Hooks, IrqLine, cd_irq_can_wakeup, suspend_host}
use linux_sdhci_rtt.Pm.Suspend.{Sleeps, suspend_host-Sleeps}
use linux_sdhci_rtt.Setup.{Caps, ClockOps}
use linux_sdhci_rtt.Examples.{device}

abbrev system : System
system = record {
  may_wakeup = true;
  wake_sdio = true;
  irq_wake = true;
  irq_granted = true;
  keep_power = true;
  sdio_claimed = true;
}

abbrev line : IrqLine
line = record { wake_enabled = false; requested = true }

abbrev no_hooks : Hooks
no_hooks = record { enable_dma = λ d. (tt, d); enhanced_strobe = λ d. (tt, d) }

suspend_host-Sleeps_example :
    Sleeps
      (true && ((cd_irq_can_wakeup device || true) && true))
      line
      (cd_irq_can_wakeup device)
      true
      (suspend_host system line device)
suspend_host-Sleeps_example = suspend_host-Sleeps system line device

-- The capabilities name no base clock, and none for time-outs; the platform does.
abbrev capabilities_of : Caps
capabilities_of = record { is_read = true; caps = 0x80; caps1 = 0 }

abbrev clock_ops : ClockOps
clock_ops = record {
  get_max_clock = some 375000000;
  get_min_clock = none;
  get_timeout_clock = some 50000000;
  get_max_timeout_count = none;
}
