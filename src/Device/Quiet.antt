-- ===== src/Device/Quiet.antt =====
-- Programs that write nothing to a register `r`: the value that it was last given stays.
use linux_sdhci_rtt.Base.{
  ℕ, zero, suc, ◌≡◌, refl, Bool, true, false, List, [], ◌∷◌, ◌==◌, if◌then◌else◌, arith,
}
use linux_sdhci_rtt.Device.{Device, Write, M, when, ret, readb, writeb, writew, writel}
use linux_sdhci_rtt.Device.Poll.{poll}

-- The newest value that was written to a register.
abbrev pub last_write : ℕ → List Write → ℕ
last_write r [] = 0
last_write r (w ∷ ws) = if w.reg == r then w.val else last_write r ws

module _ (r : ℕ) where
  abbrev pub Quiet : {A : Type 0} → M A → Type 0
  Quiet m = (d : Device) → last_write r (m d).1.log ≡ last_write r d.log

  pub when-Quiet : (b : Bool) (m : M (Unit {0})) → Quiet m → Quiet (when b m)
  when-Quiet true m q d = q d
  when-Quiet false m q d = refl

  pub if-Quiet :
      {A : Type 0} (b : Bool) (m k : M A) → Quiet m → Quiet k → Quiet (if b then m else k)
  if-Quiet true m k qm qk d = qm d
  if-Quiet false m k qm qk d = qk d

  pub unless-Quiet :
      (b : Bool) (m : M (Unit {0})) (d : Device)
      → last_write r (m d).1.log ≡ last_write r d.log
      → last_write r ((if b then ret tt else m) d).1.log ≡ last_write r d.log
  unless-Quiet true m d q = refl
  unless-Quiet false m d q = q

  pub writeb-Quiet : (val reg : ℕ) → (reg == r) ≡ false → Quiet (writeb val reg)
  unfolding writeb
  writeb-Quiet val reg off d = ground (arith, off)

  pub writew-Quiet : (val reg : ℕ) → (reg == r) ≡ false → Quiet (writew val reg)
  unfolding writew
  writew-Quiet val reg off d = ground (arith, off)

  pub writel-Quiet : (val reg : ℕ) → (reg == r) ≡ false → Quiet (writel val reg)
  unfolding writel
  writel-Quiet val reg off d = ground (arith, off)

  pub poll-Quiet :
      (done : ℕ → Bool) (timeout fuel reg : ℕ) → Quiet (poll (readb reg) done timeout fuel)
  unfolding poll readb
  poll-Quiet done timeout zero reg d = refl
  poll-Quiet done timeout (suc fuel) reg d =
      ground (arith, poll-Quiet done timeout fuel reg (readb reg d).1, same d)
    where
      same : (d : Device) → last_write r (readb reg d).1.log ≡ last_write r d.log
      same d = refl

  pub poll-Quiet_of :
      (read : M ℕ) (done : ℕ → Bool) (timeout fuel : ℕ)
      → Quiet read
      → Quiet (poll read done timeout fuel)
  unfolding poll
  poll-Quiet_of read done timeout zero q d = refl
  poll-Quiet_of read done timeout (suc fuel) q d =
      ground (arith, poll-Quiet_of read done timeout fuel q (read d).1, q d)
