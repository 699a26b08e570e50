-- ===== src/Device.antt =====
-- sdhci.h, port/l-timer.c: the register side of `struct sdhci_host` and the accessors of the
-- controller's registers. The controller is not part of the driver: `hw n reg` is what it answers if
-- access number `n` reads `reg`, and `jiffies n` the time at that access, both arbitrary. `hz` is
-- RT_TICK_PER_SECOND, `removable` the capability of the slot, and `rounds` how many rounds of a
-- polling loop are followed. Every access is counted, and every write is logged, newest first.
pub mod Poll
pub mod Keeps
pub mod Quiet
use linux_sdhci_rtt.Base.{ℕ, suc, ◌+◌, ◌*◌, ◌/◌, ◌%◌, ◌^◌, Bool, List, ◌∷◌, ltb, u8, u16, u32}

pub data Width : Type 0 where
  byte word long : Width

-- `host->timing`; RT-Thread's headers number them.
pub data Timing : Type 0 where
  legacy mmc_hs sd_hs : Timing
  uhs_sdr12 uhs_sdr25 uhs_sdr50 uhs_sdr104 uhs_ddr50 : Timing
  mmc_ddr52 mmc_hs200 mmc_hs400 : Timing

pub record Write : Type 0 where
  pub width : Width
  pub reg : ℕ
  pub val : ℕ

-- The part of `struct sdhci_host` that register programming reads and writes.
pub record Device : Type 0 where
  pub hw : ℕ → ℕ → ℕ
  pub jiffies : ℕ → ℕ
  pub hz : ℕ
  pub rounds : ℕ
  pub removable : Bool
  pub accesses : ℕ
  pub log : List Write
  pub quirks : ℕ
  pub quirks2 : ℕ
  pub version : ℕ
  pub v4_mode : Bool
  pub flags : ℕ
  pub max_clk : ℕ
  pub timeout_clk : ℕ
  pub clk_mul : ℕ
  pub clock : ℕ
  pub actual_clock : ℕ
  pub timing : Timing
  pub pwr : ℕ
  pub bus_on : Bool
  pub preset_enabled : Bool
  pub ier : ℕ
  pub data_timeout : ℕ
  pub bus_width : ℕ
  pub tuning_mode : ℕ
  pub sdma_boundary : ℕ
  pub cqe_on : Bool
  pub max_busy_timeout : ℕ

abbrev pub M : Type 0 → Type 0
M A = Device → A × Device

infixl 5 ◌>>=◌ ◌>>◌
abbrev pub ◌>>=◌ : {A B : Type 0} → M A → (A → M B) → M B
◌>>=◌ m f d = let (a, d') = m d in f a d'

abbrev pub ◌>>◌ : {A B : Type 0} → M A → M B → M B
◌>>◌ m k d = let (a, d') = m d in k d'

abbrev pub ret : {A : Type 0} → A → M A
ret a d = (a, d)

abbrev pub get : M Device
get d = (d, d)

abbrev pub put : Device → M (Unit {0})
put d' d = (tt, d')

abbrev pub when : Bool → M (Unit {0}) → M (Unit {0})
when Bool.true m d = m d
when Bool.false m d = (tt, d)

read : ℕ → ℕ → M ℕ
read w reg d = (d.hw d.accesses reg % 2 ^ w, record d { accesses = suc d.accesses })

write : Width → ℕ → ℕ → M (Unit {0})
write w val reg d = (
  tt,
  record d { accesses = suc d.accesses; log = record { width = w; reg = reg; val = val } ∷ d.log },
)

unfoldable pub readl : ℕ → M ℕ
unfolding read
readl reg = read 32 reg

unfoldable pub readw : ℕ → M ℕ
unfolding read
readw reg = read 16 reg

unfoldable pub readb : ℕ → M ℕ
unfolding read
readb reg = read 8 reg

unfoldable pub writel : ℕ → ℕ → M (Unit {0})
unfolding write
writel val reg = write long (u32 val) reg

unfoldable pub writew : ℕ → ℕ → M (Unit {0})
unfolding write
writew val reg = write word (u16 val) reg

unfoldable pub writeb : ℕ → ℕ → M (Unit {0})
unfolding write
writeb val reg = write byte (u8 val) reg

abbrev pub nsec_per_msec : ℕ
nsec_per_msec = 1000000

-- j * (1000 / RT_TICK_PER_SECOND), an unsigned int.
unfoldable pub jiffies_to_msecs : ℕ → ℕ → ℕ
jiffies_to_msecs hz j = u32 (j * (1000 / hz))

-- ktime_get(): nanoseconds, at the resolution of a tick.
unfoldable pub ktime_get : Device → ℕ
unfolding jiffies_to_msecs
ktime_get d = jiffies_to_msecs d.hz (d.jiffies d.accesses) * nsec_per_msec

unfoldable pub ktime_add_ms : ℕ → ℕ → ℕ
ktime_add_ms kt msec = kt + msec * nsec_per_msec

unfoldable pub ktime_after : ℕ → ℕ → Bool
ktime_after a b = ltb b a
