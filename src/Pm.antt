-- ===== src/Pm.antt =====
-- sdhci.c: sdhci_init as a whole, the wake-ups, sdhci_suspend_host, sdhci_resume_host,
-- sdhci_runtime_suspend_host and sdhci_runtime_resume_host. What the port's power management and the card
-- answer is a parameter.
pub mod Laws
pub mod Suspend
use linux_sdhci_rtt.Base.{
  ℕ, zero, suc, bit_and, bit_or, Bool, true, false, not, ◌&&◌, ◌||◌, Option, none, some, ◌==◌,
  if◌then◌else◌, has, clear,
}
use linux_sdhci_rtt.Regs.{
  wake_up_control, wake_on_int, wake_on_insert, wake_on_remove, int_card_int, int_enable,
  quirk_broken_card_detection, quirk2_host_off_card_on, quirk2_preset_value_broken, pv_enabled,
  use_sdma, use_adma,
}
use linux_sdhci_rtt.Device.{Device, M, ◌>>=◌, ◌>>◌, ret, get, put, when, readb, writeb, writel}
use linux_sdhci_rtt.Timeout.{write_ier}
use linux_sdhci_rtt.Reset.{init, set_card_detection, card_irqs}
use linux_sdhci_rtt.Power.Mode.{PowerMode}
use linux_sdhci_rtt.Host.{Host, on_dev}
use linux_sdhci_rtt.Irq.Handler.{enable_sdio_irq_nolock}
use linux_sdhci_rtt.Ios.{Ops, Ios, set_ios, start_signal_voltage_switch, enable_preset_value}

-- sdhci_init: a soft one ends with "force clock reconfiguration".
unfoldable pub init_host : Ops → Bool → Ios → M Ios
init_host ops soft ios = do init soft; if soft then set_ios ops ios else ret ios

-- device_may_wakeup, mmc_card_wake_sdio_irq, whether enable_irq_wake succeeds, whether request_threaded_irq
-- does, MMC_PM_KEEP_POWER of `mmc->pm_flags`, and sdio_irq_claimed.
pub record System : Type 0 where
  pub may_wakeup : Bool
  pub wake_sdio : Bool
  pub irq_wake : Bool
  pub irq_granted : Bool
  pub keep_power : Bool
  pub sdio_claimed : Bool

-- `ops->enable_dma` if it is set, and hs400_enhanced_strobe of a card that has MMC_CAP2_HS400_ES.
pub record Hooks : Type 0 where
  pub enable_dma : M (Unit {0})
  pub enhanced_strobe : M (Unit {0})

-- `host->irq_wake_enabled`, and whether the interrupt is requested.
pub record IrqLine : Type 0 where
  pub wake_enabled : Bool
  pub requested : Bool

abbrev pub wake_mask : ℕ
wake_mask = bit_or wake_on_insert (bit_or wake_on_remove wake_on_int)

-- mmc_can_gpio_cd of the port tells false.
unfoldable pub cd_irq_can_wakeup : Device → Bool
cd_irq_can_wakeup d = d.removable && not (has d.quirks quirk_broken_card_detection)

-- `wake_val` and `irq_val`.
unfoldable pub wake_val : Bool → Bool → ℕ
wake_val cd sdio =
    bit_or (if cd then bit_or wake_on_insert wake_on_remove else 0)
      (if sdio then wake_on_int else 0)

unfoldable pub irq_val : Bool → Bool → ℕ
irq_val cd sdio = bit_or (if cd then card_irqs else 0) (if sdio then int_card_int else 0)

unfoldable pub enable_irq_wakeups : System → IrqLine → M (Bool × IrqLine)
enable_irq_wakeups sys line = do
  d ← get
  let cd = cd_irq_can_wakeup d
  if irq_val cd sys.wake_sdio == 0 then ret (false, line) else (do
    val ← readb wake_up_control
    writeb (bit_or (clear 8 val wake_mask) (wake_val cd sys.wake_sdio)) wake_up_control
    writel (irq_val cd sys.wake_sdio) int_enable
    ret (sys.irq_wake, record line { wake_enabled = sys.irq_wake }))

unfoldable pub disable_irq_wakeups : IrqLine → M IrqLine
disable_irq_wakeups line = do
  val ← readb wake_up_control
  writeb (clear 8 val wake_mask) wake_up_control
  ret (record line { wake_enabled = false })

unfoldable pub suspend_host : System → IrqLine → M IrqLine
suspend_host sys line = do
  set_card_detection false
  (wakes, line1) ← (if sys.may_wakeup then enable_irq_wakeups sys line else ret (false, line))
  if wakes then ret line1 else (do write_ier 0; ret (record line1 { requested = false }))

-- "Card keeps power but host controller does not".
unfoldable pub restart_host : Ops → Bool → Ios → M Ios
restart_host ops keep_power ios = do
  d ← get
  if keep_power && has d.quirks2 quirk2_host_off_card_on
      then (do
        kept ← init_host ops false ios
        e ← get
        put (record e { pwr = 0; clock = 0 })
        set_ios ops kept)
      else init_host ops keep_power ios

-- The interrupt line, whether the host is back, and `mmc->ios`.
unfoldable pub resume_host : Ops → Hooks → System → IrqLine → Ios → M (IrqLine × (Bool × Ios))
resume_host ops hooks sys line ios = do
  d ← get
  when (has d.flags (bit_or use_sdma use_adma)) hooks.enable_dma
  new ← restart_host ops sys.keep_power ios
  line1 ←
      (if line.wake_enabled
        then disable_irq_wakeups line
        else ret (record line { requested = sys.irq_granted }))
  let back = line.wake_enabled || sys.irq_granted
  when back (set_card_detection true)
  ret (line1, (back, new))

unfoldable pub runtime_suspend_host : Host → Host
runtime_suspend_host h = record (on_dev (do d ← get; write_ier (bit_and d.ier int_card_int)) h) {
  runtime_suspended = true;
}

abbrev pub is_powered : PowerMode → Bool
is_powered PowerMode.power_undefined = false
is_powered PowerMode.power_off = false
is_powered _ = true

-- "Force clock and power re-program", for a card that has power.
unfoldable pub reprogram : Ops → Hooks → ℕ → Ios → M Ios
reprogram ops hooks host_flags ios = do
  d ← get
  put (record d { pwr = 0; clock = 0 })
  r ← start_signal_voltage_switch ops ios.signal_voltage
  new ← set_ios ops ios
  e ← get
  when (has host_flags pv_enabled && not (has e.quirks2 quirk2_preset_value_broken))
      (enable_preset_value true)
  hooks.enhanced_strobe
  ret new

-- The device part of sdhci_runtime_resume_host.
unfoldable pub runtime_resume : Ops → Hooks → Bool → Ios → M Ios
runtime_resume ops hooks soft ios = do
  d ← get
  when (has d.flags (bit_or use_sdma use_adma)) hooks.enable_dma
  new ← init_host ops soft ios
  if is_powered new.power_mode then reprogram ops hooks d.flags new else ret new

unfoldable pub runtime_resume_host : Ops → Hooks → System → Bool → Ios → Host → Ios × Host
runtime_resume_host ops hooks sys soft ios h =
    let (new, d) = runtime_resume ops hooks soft ios h.dev in
    (
      new,
      on_dev (do when sys.sdio_claimed (enable_sdio_irq_nolock true); set_card_detection true)
          (record h { dev = d; runtime_suspended = false }),
    )
