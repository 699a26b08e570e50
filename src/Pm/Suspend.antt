-- ===== src/Pm/Suspend.antt =====
-- What sdhci_suspend_host leaves enabled.
use linux_sdhci_rtt.Base.{
  ◌+◌, ◌*◌, ◌/◌, ◌%◌, ◌^◌, ◌<◌, ap, sym, ◌∙◌, ◌&&◌, u8, bit_and, bit_or_low, zero-bit_or,
  bit_and_step, bit_and_low, arith, ℕ, ◌≡◌, refl, subst, bit_or, Bool, true, false, not, ◌||◌, ◌==◌,
  if◌then◌else◌, has, clear, u32,
}
use linux_sdhci_rtt.Regs.{wake_up_control, int_enable, signal_enable, quirk_broken_card_detection}
use linux_sdhci_rtt.Device.{Device, M, ◌>>=◌, ◌>>◌, ret, writel, writeb, readb, readl}
use linux_sdhci_rtt.Device.Keeps.{Keeps, if_keeps}
use linux_sdhci_rtt.Device.Quiet.{last_write}
use linux_sdhci_rtt.Timeout.{write_ier}
use linux_sdhci_rtt.Reset.{set_card_detection}
use linux_sdhci_rtt.Pm.{
  wake_mask, System, IrqLine, cd_irq_can_wakeup, irq_val, wake_val, enable_irq_wakeups,
  suspend_host,
}

set_card_detection-Keeps_cd : (enable : Bool) → Keeps cd_irq_can_wakeup (set_card_detection enable)
unfolding set_card_detection write_ier writel readl cd_irq_can_wakeup
set_card_detection-Keeps_cd enable d =
    if_keeps cd_irq_can_wakeup (has d.quirks quirk_broken_card_detection || not d.removable) _ _ d d
      refl (if_keeps cd_irq_can_wakeup enable _ _ d d refl refl)

-- What the enabled interrupts and the wake-up register say of a card that is put in or taken out (bits 6 and 7, and
-- the bits 1 and 2), and of the card's own interrupt (bit 8, and the bit 0).
abbrev pub events : Bool → Bool → ℕ
events cd sdio = (if cd then 0xc0 else 0) + (if sdio then 0x100 else 0)

abbrev pub wakes_on : Bool → Bool → ℕ
wakes_on cd sdio = (if cd then 6 else 0) + (if sdio then 1 else 0)

irq_val-events : (cd sdio : Bool) → u32 (irq_val cd sdio) ≡ events cd sdio
unfolding irq_val
irq_val-events true true = refl
irq_val-events true false = refl
irq_val-events false true = refl
irq_val-events false false = refl

irq_val-none : (cd sdio : Bool) → (irq_val cd sdio == 0) ≡ not (cd || sdio)
unfolding irq_val
irq_val-none true true = refl
irq_val-none true false = refl
irq_val-none false true = refl
irq_val-none false false = refl

wake_val-wakes_on : (cd sdio : Bool) → wake_val cd sdio ≡ wakes_on cd sdio
unfolding wake_val
wake_val-wakes_on true true = refl
wake_val-wakes_on true false = refl
wake_val-wakes_on false true = refl
wake_val-wakes_on false false = refl

wakes_on-lt : (cd sdio : Bool) → wakes_on cd sdio < 8
wakes_on-lt true true = omega arith
wakes_on-lt true false = omega arith
wakes_on-lt false true = omega arith
wakes_on-lt false false = omega arith

-- The bits that wake the system, whatever the register held.
with_wake_bits : (x w : ℕ) → w < 8 → u8 (bit_or (clear 8 x wake_mask) w) % 8 ≡ w
unfolding clear
with_wake_bits x w lt = omega (
  arith,
  ap (λ (t : ℕ). bit_or t w) low,
  bit_or_low 3 (x / 2 / 2 / 2 % 2 ^ 5) 0 w (omega arith) lt,
  zero-bit_or w,
)
  where
    low : bit_and x 0xf8 ≡ x / 2 / 2 / 2 % 2 ^ 5 * 2 ^ 3 + 0
    low = omega (
      arith,
      bit_and_step x 0xf8,
      bit_and_step (x / 2) 0x7c,
      bit_and_step (x / 2 / 2) 0x3e,
      bit_and_low 5 (x / 2 / 2 / 2),
    )

-- The interrupt can wake the system: it stays requested, exactly the events that can are enabled, and the wake-up
-- register has their bits.
abbrev pub CanWake : IrqLine → Bool → Bool → IrqLine × Device → Type 0
CanWake line cd sdio r =
    (r.0 ≡ record line { wake_enabled = true })
    × ((last_write int_enable r.1.log ≡ events cd sdio)
        × (last_write wake_up_control r.1.log % 8 ≡ wakes_on cd sdio))

-- The interrupt is given back, and nothing is enabled.
abbrev pub IsOff : IrqLine × Device → Type 0
IsOff r =
    (r.0.requested ≡ false)
    × ((r.1.ier ≡ 0)
        × ((last_write int_enable r.1.log ≡ 0) × (last_write signal_enable r.1.log ≡ 0)))

abbrev pub Sleeps : Bool → IrqLine → Bool → Bool → IrqLine × Device → Type 0
Sleeps true line cd sdio r = CanWake line cd sdio r
Sleeps false line cd sdio r = IsOff r

-- The tests of sdhci_enable_irq_wakeups are `nothing` and `granted`.
abbrev wakeups : Bool → Bool → ℕ → ℕ → IrqLine → M (Bool × IrqLine)
wakeups nothing granted irqs wake_bits line = if nothing then ret (false, line) else (do
  val ← readb wake_up_control
  writeb (bit_or (clear 8 val wake_mask) wake_bits) wake_up_control
  writel irqs int_enable
  ret (granted, record line { wake_enabled = granted }))

-- What sdhci_suspend_host does with the answer.
abbrev give_back : M (Bool × IrqLine) → M IrqLine
give_back m = do
  (wakes, line) ← m
  if wakes then ret line else (do write_ier 0; ret (record line { requested = false }))

wakeups-Sleeps :
    (some_event granted cd sdio : Bool) (irqs wake_bits : ℕ) (line : IrqLine) (d : Device)
    → u32 irqs ≡ events cd sdio
    → wake_bits ≡ wakes_on cd sdio
    → Sleeps
        (some_event && granted)
        line
        cd
        sdio
        (give_back (wakeups (not some_event) granted irqs wake_bits line) d)
unfolding write_ier writel writeb readb
wakeups-Sleeps false granted cd sdio irqs wake_bits line d i w = (refl, (refl, (refl, refl)))
wakeups-Sleeps true false cd sdio irqs wake_bits line d i w = (refl, (refl, (refl, refl)))
wakeups-Sleeps true true cd sdio irqs wake_bits line d i w = (
  refl,
  (
    i,
    with_wake_bits (readb wake_up_control d).0 wake_bits
          (subst (λ (n : ℕ). n < 8) (sym w) (wakes_on-lt cd sdio))
        ∙ w,
  ),
)

by_may :
    (may cd : Bool) (sys : System) (line : IrqLine) (d : Device)
    → cd_irq_can_wakeup d ≡ cd
    → Sleeps
        (may && ((cd || sys.wake_sdio) && sys.irq_wake))
        line
        cd
        sys.wake_sdio
        (give_back (if may then enable_irq_wakeups sys line else ret (false, line)) d)
unfolding enable_irq_wakeups write_ier writel
by_may false cd sys line d c = (refl, (refl, (refl, refl)))
by_may true cd sys line d c =
    subst
      (λ (b : Bool). Sleeps ((cd || sys.wake_sdio) && sys.irq_wake) line cd sys.wake_sdio (
        give_back
          (wakeups b sys.irq_wake (irq_val (cd_irq_can_wakeup d) sys.wake_sdio)
            (wake_val (cd_irq_can_wakeup d) sys.wake_sdio) line)
          d))
      (sym (ap (λ (k : Bool). irq_val k sys.wake_sdio == 0) c ∙ irq_val-none cd sys.wake_sdio))
      (wakeups-Sleeps (cd || sys.wake_sdio) sys.irq_wake cd sys.wake_sdio
        (irq_val (cd_irq_can_wakeup d) sys.wake_sdio) (wake_val (cd_irq_can_wakeup d) sys.wake_sdio)
        line d
        (ap (λ (k : Bool). u32 (irq_val k sys.wake_sdio)) c ∙ irq_val-events cd sys.wake_sdio)
        (ap (λ (k : Bool). wake_val k sys.wake_sdio) c ∙ wake_val-wakes_on cd sys.wake_sdio))

-- If the device may wake the system, there is an event that can, and the interrupt is set up for it, then
-- sdhci_suspend_host leaves the interrupt requested, with exactly the events that can wake the system enabled and
-- their bits in the wake-up register. Else it gives the interrupt back, with none enabled.
pub suspend_host-Sleeps :
    (sys : System) (line : IrqLine) (d : Device)
    → Sleeps
        (sys.may_wakeup && ((cd_irq_can_wakeup d || sys.wake_sdio) && sys.irq_wake))
        line
        (cd_irq_can_wakeup d)
        sys.wake_sdio
        (suspend_host sys line d)
unfolding suspend_host
suspend_host-Sleeps sys line d =
    by_may sys.may_wakeup (cd_irq_can_wakeup d) sys line (set_card_detection false d).1
      (set_card_detection-Keeps_cd false d)
