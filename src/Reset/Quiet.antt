-- ===== src/Reset/Quiet.antt =====
-- The registers that sdhci_get_cd, sdhci_reset and sdhci_do_reset leave alone.
use linux_sdhci_rtt.Base.{
  ℕ, ◌≡◌, refl, ◌∙◌, Bool, true, false, not, ◌||◌, ◌==◌, if◌then◌else◌, if_both, has,
}
use linux_sdhci_rtt.Regs.{
  device_dead, quirk_broken_card_detection, quirk_no_card_no_reset, quirk2_card_on_needs_bus_on,
  software_reset, reset_all,
}
use linux_sdhci_rtt.Device.{Device, M, ◌>>◌, ◌>>=◌, get, put, ret, when, readl, writeb}
use linux_sdhci_rtt.Device.Quiet.{
  Quiet, last_write, when-Quiet, if-Quiet, unless-Quiet, writeb-Quiet, poll-Quiet,
}
use linux_sdhci_rtt.Reset.{reset, do_reset, wait_reset, get_cd, bus_on, bus_off}

module _ (r : ℕ) where
  pub bus_on-Quiet : Quiet r bus_on
  unfolding bus_on
  bus_on-Quiet d = refl

  pub bus_off-Quiet : Quiet r bus_off
  unfolding bus_off
  bus_off-Quiet d = refl

  pub get_cd-Quiet : Quiet r get_cd
  unfolding get_cd readl
  get_cd-Quiet d =
      if_both (λ (m : M Bool). last_write r (m d).1.log ≡ last_write r d.log)
        (has d.flags device_dead) refl
        (if_both (λ (m : M Bool). last_write r (m d).1.log ≡ last_write r d.log)
          (not d.removable || has d.quirks quirk_broken_card_detection) refl refl)

  wait_reset-Quiet : (mask : ℕ) → Quiet r (wait_reset mask)
  unfolding wait_reset
  wait_reset-Quiet mask d = poll-Quiet r _ _ d.rounds _ d

  pub reset-Quiet : (mask : ℕ) → (software_reset == r) ≡ false → Quiet r (reset mask)
  unfolding reset
  reset-Quiet mask off d =
      let d1 = (writeb mask software_reset d).1 in
      let forget =
        put (record d1 { clock = 0 })
        >> when (has d1.quirks2 quirk2_card_on_needs_bus_on) bus_off in
      wait_reset-Quiet mask (when (has mask reset_all) forget d1).1
      ∙ forgotten (has mask reset_all) (has d1.quirks2 quirk2_card_on_needs_bus_on) d1
      ∙ writeb-Quiet r mask software_reset off d
    where
      forgotten :
          (all off : Bool) (e : Device)
          → last_write r (when all (put (record e { clock = 0 }) >> when off bus_off) e).1.log
            ≡ last_write r e.log
      forgotten true off e = when-Quiet r off bus_off bus_off-Quiet (record e { clock = 0 })
      forgotten false off e = refl

  pub do_reset-Quiet : (mask : ℕ) → (software_reset == r) ≡ false → Quiet r (do_reset mask)
  unfolding do_reset
  do_reset-Quiet mask off d =
      let no_card = has d.quirks quirk_no_card_no_reset in
      let (present, d1) = (if no_card then get_cd else ret true) d in
      unless-Quiet r (not present) after_reset d1
        (settled (has mask reset_all) (reset mask d1).1 ∙ reset-Quiet mask off d1)
      ∙ if-Quiet r no_card get_cd (ret true) get_cd-Quiet (λ e. refl) d
    where
      after_reset : M (Unit {0})
      after_reset = do
        reset mask
        e ← get
        when (has mask reset_all) (put (record e { preset_enabled = false }))

      settled :
          (all : Bool) (e : Device)
          → last_write r (when all (put (record e { preset_enabled = false })) e).1.log
            ≡ last_write r e.log
      settled true e = refl
      settled false e = refl
