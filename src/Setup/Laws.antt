-- ===== src/Setup/Laws.antt =====
-- The clocks of a host that has been set up: none that a later division takes is 0.
use linux_sdhci_rtt.Base.{
  ◌&&◌, ℕ, ◌+◌, ◌/◌, ◌^◌, ◌<◌, ◌≡◌, Bool, true, false, ◌&&◌, ◌||◌, Option, none, some, ◌==◌,
  if◌then◌else◌, has, ◌⊎◌,
}
use linux_sdhci_rtt.Regs.{
  quirk_cap_clock_base_broken, quirk_data_timeout_uses_sdclk, quirk2_disable_hw_timeout,
}
use linux_sdhci_rtt.Device.{Device, M, ◌>>=◌, ◌>>◌, ret, get, put, when}
use linux_sdhci_rtt.Setup.{Caps, ClockOps, Limits, unless_zero, caps_clock, caps_timeout_clk}

-- What the platform answers is positive.
abbrev pub Positive : Option ℕ → Type 0
Positive none = Unit {0}
Positive (some n) = 0 < n

-- So is the clock of the time-out, which rounds up to kHz within 32 bits.
abbrev pub Answers : Option ℕ → Type 0
Answers none = Unit {0}
Answers (some hz) = (0 < hz) × (hz + 999 < 2 ^ 32)

-- The base clock: known, and then positive, or absent from the capabilities and from the platform.
abbrev Based : ClockOps → ℕ → Device → Bool → Device → Type 0
Based ops caps d true e =
    (0 < e.max_clk) × ((e.quirks ≡ d.quirks) × (e.timeout_clk ≡ d.timeout_clk))
Based ops caps d false e =
    (ops.get_max_clock ≡ none)
    × ((caps_clock d.version caps == 0 || has d.quirks quirk_cap_clock_base_broken) ≡ true)

-- What is done once the clock of the capabilities is stored.
abbrev base_from : Bool → Option ℕ → Device → M Bool
base_from b o d =
    if b
    then (elim o [ none ↦ ret false | some n ↦ put (record d { max_clk = n }) >> ret true ])
    else ret true

-- The clock of the time-out: positive, unless it runs with the clock of the card.
abbrev Timed : ClockOps → ℕ → Device → Bool → Device → Type 0
Timed ops caps d true e =
    ((has d.quirks quirk_data_timeout_uses_sdclk ≡ true) ⊎ (0 < e.timeout_clk))
    × (e.max_clk ≡ d.max_clk)
Timed ops caps d false e =
    (has d.quirks quirk_data_timeout_uses_sdclk ≡ false)
    × ((caps_timeout_clk ops caps ≡ none) × (e.max_clk ≡ d.max_clk))

-- The clock, and then the busy time-out of a host whose time-outs are the software's.
abbrev known_from : ℕ → Bool → Option ℕ → Device → M Bool
known_from count b o d = if b then ret true else (elim o [
  | none ↦ ret false
  | some n ↦ (do
    let clk = unless_zero d.timeout_clk n
    put (record d { timeout_clk = clk; max_busy_timeout = count / clk })
    ret true)
])

abbrev after_known : Bool → Bool → M Bool
after_known soft known = do
  e ← get
  when (known && has e.quirks2 quirk2_disable_hw_timeout && soft)
      (put (record e { max_busy_timeout = 0 }))
  ret known

-- What a set-up leaves. Success: the base clock is positive, and so is that of the time-out, unless it runs with the
-- clock of the card. -ENODEV: the base clock or the clock of the time-out is neither in the capabilities nor known
-- to the platform.
abbrev pub SetUp : ClockOps → Caps → Device → Option Limits → Device → Type 0
SetUp ops c d (some l) e =
    (0 < e.max_clk) × ((has d.quirks quirk_data_timeout_uses_sdclk ≡ true) ⊎ (0 < e.timeout_clk))
SetUp ops c d none e = (ops.get_max_clock ≡ none) ⊎ (caps_timeout_clk ops c.caps ≡ none)
