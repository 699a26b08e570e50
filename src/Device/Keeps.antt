-- ===== src/Device/Keeps.antt =====
-- Programs that keep a part of the device, which `f` reads.
use linux_sdhci_rtt.Base.{ℕ, zero, suc, ◌≡◌, refl, Bool, true, false, if◌then◌else◌, arith}
use linux_sdhci_rtt.Device.{Device, M, when}
use linux_sdhci_rtt.Device.Poll.{poll}

module _ {ℓ} {A : Type ℓ} (f : Device → A) where
  abbrev pub Keeps : {B : Type 0} → M B → Type ℓ
  Keeps m = (d : Device) → f (m d).1 ≡ f d

  pub when-Keeps : (b : Bool) (m : M (Unit {0})) → Keeps m → Keeps (when b m)
  when-Keeps true m k d = k d
  when-Keeps false m k d = refl

  pub if-Keeps :
      {B : Type 0} (b : Bool) (m n : M B) → Keeps m → Keeps n → Keeps (if b then m else n)
  if-Keeps true m n km kn d = km d
  if-Keeps false m n km kn d = kn d

  -- The same, at one device.
  pub if_keeps :
      {B : Type 0} (b : Bool) (m n : M B) (d e : Device)
      → f (m e).1 ≡ f d
      → f (n e).1 ≡ f d
      → f ((if b then m else n) e).1 ≡ f d
  if_keeps true m n d e km kn = km
  if_keeps false m n d e km kn = kn

  pub poll-Keeps :
      (read : M ℕ) (done : ℕ → Bool) (timeout fuel : ℕ)
      → Keeps read
      → Keeps (poll read done timeout fuel)
  unfolding poll
  poll-Keeps read done timeout zero k d = refl
  poll-Keeps read done timeout (suc fuel) k d =
      ground (arith, poll-Keeps read done timeout fuel k (read d).1, k d)
