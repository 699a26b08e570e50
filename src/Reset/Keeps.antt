-- ===== src/Reset/Keeps.antt =====
-- What sdhci_do_reset and sdhci_init keep of the device: the version, the base clock and whether it
-- is dead always, and the clocks and the timing if not the whole controller is reset.
use linux_sdhci_rtt.Base.{
  ℕ, ap, ◌≡◌, refl, ◌∙◌, bit_or, Bool, true, false, not, ◌||◌, if◌then◌else◌, has,
}
use linux_sdhci_rtt.Regs.{
  device_dead, quirk_broken_card_detection, quirk_no_card_no_reset, quirk2_card_on_needs_bus_on,
  software_reset, reset_all, reset_cmd, reset_data, host_control2, ctrl_v4_mode,
}
use linux_sdhci_rtt.Device.{
  Device, Timing, M, ◌>>◌, ◌>>=◌, get, put, ret, when, readl, readw, readb, writel, writew, writeb,
}
use linux_sdhci_rtt.Device.Keeps.{Keeps, when-Keeps, if-Keeps, if_keeps, poll-Keeps}
use linux_sdhci_rtt.Timeout.{write_ier}
use linux_sdhci_rtt.Reset.{
  reset, do_reset, wait_reset, get_cd, bus_off, init, do_enable_v4_mode, set_default_irqs,
  set_card_detection,
}

-- The fields that are followed.
abbrev pub version_of : Device → ℕ × (Bool × ℕ)
version_of d = (d.version, (has d.flags device_dead, d.max_clk))

abbrev pub Core : Type 0
Core = ℕ × (Timing × (ℕ × (Bool × ℕ)))

abbrev pub core : Device → Core
core d = (d.clock, (d.timing, version_of d))

-- With the clock that the controller runs.
abbrev pub full : Device → ℕ × Core
full d = (d.actual_clock, core d)

module _ {A : Type 0} (f : Device → A) (get_cd_kept : Keeps f get_cd) where
  -- sdhci_do_reset keeps what sdhci_reset keeps, if the flag for presets is not looked at.
  do_reset-Keeps_of :
      (mask : ℕ)
      → Keeps f (reset mask)
      → ((d : Device) → f (record d { preset_enabled = false }) ≡ f d)
      → Keeps f (do_reset mask)
  unfolding do_reset
  do_reset-Keeps_of mask kept preset d =
      let no_card = has d.quirks quirk_no_card_no_reset in
      let (present, d1) = (if no_card then get_cd else ret true) d in
      let looked = if-Keeps f no_card get_cd (ret true) get_cd_kept (λ e. refl) d in
      if_keeps f (not present) (ret tt) after_reset d d1 looked
        (settled (has mask reset_all) (reset mask d1).1 ∙ kept d1 ∙ looked)
    where
      after_reset : M (Unit {0})
      after_reset = do
        reset mask
        e ← get
        when (has mask reset_all) (put (record e { preset_enabled = false }))

      settled :
          (all : Bool) (e : Device)
          → f (when all (put (record e { preset_enabled = false })) e).1 ≡ f e
      settled true e = preset e
      settled false e = refl

pub get_cd-Keeps : Keeps full get_cd
unfolding get_cd readl
get_cd-Keeps d =
    if_keeps full (has d.flags device_dead) _ _ d d refl (
      if_keeps full (not d.removable || has d.quirks quirk_broken_card_detection) _ _ d d refl refl)

wait_reset-Keeps : (mask : ℕ) → Keeps full (wait_reset mask)
unfolding wait_reset readb
wait_reset-Keeps mask d = poll-Keeps full (readb software_reset) _ _ d.rounds (λ e. refl) d

-- The reset of the command and the data circuits.
reset-Keeps : (mask : ℕ) → has mask reset_all ≡ false → Keeps full (reset mask)
unfolding reset writeb
reset-Keeps mask part d =
    let d1 = (writeb mask software_reset d).1 in
    let forget =
      put (record d1 { clock = 0 }) >> when (has d1.quirks2 quirk2_card_on_needs_bus_on) bus_off in
    wait_reset-Keeps mask (when (has mask reset_all) forget d1).1
    ∙ ap (λ (b : Bool). full (when b forget d1).1) part

pub do_reset-Keeps : (mask : ℕ) → has mask reset_all ≡ false → Keeps full (do_reset mask)
do_reset-Keeps mask part =
    do_reset-Keeps_of full get_cd-Keeps mask (reset-Keeps mask part) (λ d. refl)

-- A reset of any kind keeps the version.
reset-Keeps_version : (mask : ℕ) → Keeps version_of (reset mask)
unfolding reset writeb bus_off
reset-Keeps_version mask d =
    let d1 = (writeb mask software_reset d).1 in
    let forget =
      put (record d1 { clock = 0 }) >> when (has d1.quirks2 quirk2_card_on_needs_bus_on) bus_off in
    ap (λ (c : ℕ × Core). c.1.1.1) (wait_reset-Keeps mask (when (has mask reset_all) forget d1).1)
    ∙ forgotten (has mask reset_all) (has d1.quirks2 quirk2_card_on_needs_bus_on) d1
  where
    switched_off : (off : Bool) (e : Device) → version_of (when off bus_off e).1 ≡ version_of e
    switched_off true e = refl
    switched_off false e = refl

    forgotten :
        (all off : Bool) (e : Device)
        → version_of (when all (put (record e { clock = 0 }) >> when off bus_off) e).1
          ≡ version_of e
    forgotten true off e = switched_off off (record e { clock = 0 })
    forgotten false off e = refl

do_enable_v4_mode-Keeps : Keeps version_of do_enable_v4_mode
unfolding do_enable_v4_mode readw writew
do_enable_v4_mode-Keeps d =
    let (ctrl2, e) = readw host_control2 d in
    if_keeps version_of (has ctrl2 ctrl_v4_mode) (ret tt)
      (writew (bit_or ctrl2 ctrl_v4_mode) host_control2) d e refl refl

pub do_reset-Keeps_version : (mask : ℕ) → Keeps version_of (do_reset mask)
do_reset-Keeps_version mask =
    do_reset-Keeps_of version_of (λ d. ap (λ (c : ℕ × Core). c.1.1.1) (get_cd-Keeps d)) mask
      (reset-Keeps_version mask) (λ d. refl)

pub init-Keeps_version : (soft : Bool) → Keeps version_of (init soft)
unfolding init set_default_irqs write_ier writel
init-Keeps_version soft d =
    let mask = if soft then bit_or reset_cmd reset_data else reset_all in
    let d1 = (do_reset mask d).1 in
    when-Keeps version_of d1.v4_mode do_enable_v4_mode do_enable_v4_mode-Keeps d1
    ∙ do_reset-Keeps_version mask d

pub set_card_detection-Keeps : (enable : Bool) → Keeps full (set_card_detection enable)
unfolding set_card_detection write_ier writel readl
set_card_detection-Keeps enable d =
    if_keeps full (has d.quirks quirk_broken_card_detection || not d.removable) _ _ d d refl
      (if_keeps full enable _ _ d d refl refl)
