-- ===== src/Clock/Enable.antt =====
-- sdhci.c: sdhci_enable_clk and sdhci_set_clock. The register dumps of the failing paths are not
-- modelled. Each loop takes the given fuel.
use linux_sdhci_rtt.Base.{
  ℕ, bit_or, Bool, ◌&&◌, Option, none, some, leb, ◌==◌, if◌then◌else◌, has, clear,
}
use linux_sdhci_rtt.Regs.{
  spec_410, clock_control, clock_int_en, clock_int_stable, clock_pll_en, clock_card_en,
}
use linux_sdhci_rtt.Device.{
  Device, M, ◌>>=◌, ◌>>◌, ret, get, put, readw, writew, ktime_get, ktime_add_ms,
}
use linux_sdhci_rtt.Device.Poll.{Poll, ready, poll}
use linux_sdhci_rtt.Clock.{calc_clk}

unfoldable pub is_stable : ℕ → Bool
is_stable clk = has clk clock_int_stable

-- "Wait max 150 ms".
unfoldable pub wait_stable : ℕ → M Poll
unfolding is_stable
wait_stable fuel = do
  d ← get
  poll (readw clock_control) is_stable (ktime_add_ms (ktime_get d) 150) fuel

-- The last write of sdhci_enable_clk, which a time-out skips.
unfoldable pub enable_card : Poll → M Poll
enable_card (ready clk) = do
  writew (bit_or clk clock_card_en) clock_control
  ret (ready (bit_or clk clock_card_en))
enable_card p = ret p

-- The PLL of version 4.10.
unfoldable pub enable_pll : ℕ → Poll → M Poll
unfolding wait_stable
enable_pll fuel (ready clk) = do
  d ← get
  if leb spec_410 d.version && d.v4_mode
      then (do
        writew (clear 16 (bit_or clk clock_pll_en) clock_int_stable) clock_control
        wait_stable fuel)
      else ret (ready clk)
enable_pll fuel p = ret p

unfoldable pub enable_clk : ℕ → ℕ → M Poll
unfolding wait_stable enable_pll enable_card
enable_clk fuel clk = do
  writew (bit_or clk clock_int_en) clock_control
  p ← wait_stable fuel
  q ← enable_pll fuel p
  enable_card q

-- `*actual_clock` keeps its value where sdhci_calc_clk does not write it.
abbrev pub store_actual : Option ℕ → Device → Device
store_actual none d = d
store_actual (some a) d = record d { actual_clock = a }

-- The clock is stopped first, and stays so for the request 0.
unfoldable pub set_clock : ℕ → ℕ → M Poll
unfolding enable_clk
set_clock fuel clock = do
  d ← get
  put (record d { actual_clock = 0 })
  writew 0 clock_control
  if clock == 0
      then ret (ready 0)
      else (do (clk, act) ← calc_clk clock; e ← get; put (store_actual act e); enable_clk fuel clk)
