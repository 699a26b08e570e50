-- ===== src/Ios/Clocks.antt =====
-- How sdhci_set_ios ends, as a relation between the request, the device before and the device after: the clock that
-- the controller runs then is the one that ops->set_clock has set for the request, on every version.
use linux_sdhci_rtt.Base.{ℕ, ◌≡◌, ap, ◌∙◌, Bool, true, false}
use linux_sdhci_rtt.Device.{Device, Timing}
use linux_sdhci_rtt.Power.Mode.{PowerMode}
use linux_sdhci_rtt.Reset.Keeps.{full, Core, core, version_of}
use linux_sdhci_rtt.Ios.{Ops, Ios}
use linux_sdhci_rtt.Ios.Laws.{KeepsCore}

-- The clock that runs, the one that is cached, and what does not change.
abbrev pub driven : Device → ℕ × (ℕ × (ℕ × (Bool × ℕ)))
driven d = (d.actual_clock, (d.clock, version_of d))

abbrev pub is_off : PowerMode → Bool
is_off PowerMode.power_off = true
is_off _ = false

module _ (ops : Ops) where
  -- From version 3.00 on: `e` is a device that has the clock and the timing of the request, and the clock that runs at
  -- the end is the one that set_clock sets then.
  pub record Newer (ios : Ios) (d r : Device) : Type 0 where
    pub before : Device
    pub cached : core before ≡ (ios.clock, (ios.timing, version_of d))
    pub runs : full r ≡ full (ops.set_clock ios.clock before).1

  -- Before version 3.00: `before` is a device of the same version and base clock.
  pub record Older (ios : Ios) (d r : Device) : Type 0 where
    pub before : Device
    pub cached : version_of before ≡ version_of d
    pub runs :
        driven r ≡ ((ops.set_clock ios.clock before).1.actual_clock, (ios.clock, version_of d))

  abbrev pub Ends : Bool → Ios → Device → Device → Type 0
  Ends true ios d r = Newer ios d r
  Ends false ios d r = Older ios d r

  module _ (law : KeepsCore ops) where
    pub Ends-at :
        (newer : Bool) (ios : Ios) (d e r : Device)
        → version_of e ≡ version_of d
        → Ends newer ios e r
        → Ends newer ios d r
    Ends-at true ios d e r v n = record {
      before = n.before;
      cached = n.cached ∙ ap (λ (k : ℕ × (Bool × ℕ)). (ios.clock, (ios.timing, k))) v;
      runs = n.runs;
    }
    Ends-at false ios d e r v n = record {
      before = n.before;
      cached = n.cached ∙ v;
      runs =
          n.runs
          ∙ ap
              (λ (k : ℕ × (Bool × ℕ)).
                ((ops.set_clock ios.clock n.before).1.actual_clock, (ios.clock, k)))
              v;
    }

    -- The version, the base clock and the life of the controller stay.
    pub Ends-version :
        (newer : Bool) (ios : Ios) (d r : Device) → Ends newer ios d r → version_of r ≡ version_of d
    Ends-version true ios d r n =
        ap (λ (c : ℕ × Core). c.1.1.1) n.runs
        ∙ ap (λ (c : Core). c.1.1) (law.set_clock ios.clock n.before ∙ n.cached)
    Ends-version false ios d r n = ap (λ (c : ℕ × (ℕ × (ℕ × (Bool × ℕ)))). c.1.1) n.runs

    -- What is done behind it and keeps the clocks, the timing and the version.
    pub Ends-kept :
        (newer : Bool) (ios : Ios) (d r q : Device)
        → full q ≡ full r
        → Ends newer ios d r
        → Ends newer ios d q
    Ends-kept true ios d r q k n = record {
      before = n.before;
      cached = n.cached;
      runs = k ∙ n.runs;
    }
    Ends-kept false ios d r q k n = record {
      before = n.before;
      cached = n.cached;
      runs = ap (λ (c : ℕ × Core). (c.0, (c.1.0, c.1.1.1))) k ∙ n.runs;
    }

    -- The same for requests that ask for the same clock and timing.
    pub Ends-asked :
        (newer : Bool) (a b : Ios) (d r : Device)
        → a.clock ≡ b.clock
        → a.timing ≡ b.timing
        → Ends newer a d r
        → Ends newer b d r
    Ends-asked true a b d r c t n = record {
      before = n.before;
      cached =
          n.cached
          ∙ ap (λ (k : ℕ). (k, (a.timing, version_of d))) c
          ∙ ap (λ (u : Timing). (b.clock, (u, version_of d))) t;
      runs = n.runs ∙ ap (λ (k : ℕ). full (ops.set_clock k n.before).1) c;
    }
    Ends-asked false a b d r c t n = record {
      before = n.before;
      cached = n.cached;
      runs =
          n.runs ∙ ap (λ (k : ℕ). ((ops.set_clock k n.before).1.actual_clock, (k, version_of d))) c;
    }
