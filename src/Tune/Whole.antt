-- ===== src/Tune/Whole.antt =====
-- sdhci_execute_tuning on a platform that has no tuning of its own.
use linux_sdhci_rtt.Base.{true, false, ℕ, ◌≡◌, Bool, false, u32, ◌⊎◌}
use linux_sdhci_rtt.Regs.{int_enable, signal_enable}
use linux_sdhci_rtt.Device.{Device, Timing}
use linux_sdhci_rtt.Device.Quiet.{last_write}
use linux_sdhci_rtt.Host.{Host}
use linux_sdhci_rtt.Tune.{
  success, Tuner, TuneReturn, tune_ok, tune_einval, Need, refused, not_needed, needed, leave_hs400,
}
use linux_sdhci_rtt.Tune.Laws.{IsFixed}

-- What the SD and eMMC specifications ask of each timing; `sdr50` says that the controller wants its tuning for SDR50.
abbrev pub duty : Bool → Timing → Need
duty sdr50 Timing.legacy = not_needed
duty sdr50 Timing.mmc_hs = not_needed
duty sdr50 Timing.sd_hs = not_needed
duty sdr50 Timing.uhs_sdr12 = not_needed
duty sdr50 Timing.uhs_sdr25 = not_needed
duty true Timing.uhs_sdr50 = needed
duty false Timing.uhs_sdr50 = not_needed
duty sdr50 Timing.uhs_sdr104 = needed
duty sdr50 Timing.uhs_ddr50 = needed
duty sdr50 Timing.mmc_ddr52 = not_needed
duty sdr50 Timing.mmc_hs200 = needed
duty sdr50 Timing.mmc_hs400 = refused

-- -EINVAL where the tuning is refused, and else 0.
abbrev pub returned : Need → TuneReturn
returned refused = tune_einval
returned _ = tune_ok

-- The interrupts that are enabled are those of `host->ier`.
abbrev pub IsRestored : Device → Type 0
IsRestored d =
    (last_write int_enable d.log ≡ u32 d.ier) × (last_write signal_enable d.log ≡ u32 d.ier)

-- What the tuning leaves, if it is needed: a tuning that has not succeeded leaves the fixed clock. Nothing is written
-- otherwise.
abbrev pub Leaves : Need → Tuner → Tuner → Type 0
Leaves needed t r = IsRestored r.host.dev × ((r.tuning_err ≡ success) ⊎ IsFixed r.host.dev)
Leaves _ t r = r.host.dev.log ≡ t.host.dev.log

module _ (others : ℕ → Host → Host) (wait : Host → Host) (wide : Bool) (id opcode : ℕ) where
  abbrev gone : Tuner → Tuner
  gone r = record r { host = leave_hs400 r.host }
