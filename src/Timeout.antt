-- ===== src/Timeout.antt =====
-- sdhci.c: sdhci_target_timeout, sdhci_calc_sw_timeout, sdhci_calc_timeout,
-- sdhci_set_data_timeout_irq, sdhci_set_transfer_irqs and __sdhci_set_timeout. `none` for the
-- command's data stands for the null pointer. do_div by 0 faults in the code; the callers' clocks
-- are not 0.
pub mod Laws
use linux_sdhci_rtt.Base.{
  ℕ, zero, suc, ◌+◌, ◌-◌, ◌*◌, ◌/◌, ◌%◌, ◌^◌, bit_or, Bool, true, false, not, ◌&&◌, ◌||◌, Option,
  none, some, ltb, leb, ◌==◌, if◌then◌else◌, has, clear, u8, u32, u64, ◌<<<◌,
}
use linux_sdhci_rtt.Regs.{
  quirk_broken_timeout_val, quirk2_disable_hw_timeout, int_data_avail, int_space_avail, int_dma_end,
  int_adma_error, int_data_timeout, int_auto_cmd_err, req_use_dma, auto_cmd12, auto_cmd23,
  int_enable, signal_enable, timeout_control,
}
use linux_sdhci_rtt.Device.{Device, M, ◌>>=◌, ◌>>◌, ret, get, put, writel, writeb}
use linux_sdhci_rtt.Mmc.{Command, Data}

-- DIV_ROUND_UP(n, 1000) on an unsigned int.
unfoldable pub us_of_ns : ℕ → ℕ
us_of_ns n = u32 (n + 999) / 1000

-- `val = 1000000ULL * clks; if (do_div(val, clock)) us++; us += val;`
unfoldable pub add_clks : ℕ → ℕ → ℕ → ℕ
add_clks us clock clks =
    let val = 1000000 * clks in u32 (u32 (us + (if val % clock == 0 then 0 else 1)) + val / clock)

-- Microseconds.
unfoldable pub target_timeout : ℕ → Command → Option Data → ℕ
unfolding us_of_ns add_clks
target_timeout clock cmd none = u32 (cmd.busy_timeout * 1000)
target_timeout clock cmd (some d) =
    if not (clock == 0) && not (d.timeout_clks == 0)
    then add_clks (us_of_ns d.timeout_ns) clock d.timeout_clks
    else us_of_ns d.timeout_ns

-- MMC_CMD_TRANSFER_TIME: 10 ms, in nanoseconds.
abbrev pub mmc_cmd_transfer_time : ℕ
mmc_cmd_transfer_time = 10 * 1000000

-- What is stored in `host->data_timeout`, nanoseconds.
unfoldable pub sw_timeout : Device → Command → Option Data → ℕ
unfolding target_timeout
sw_timeout h cmd d =
    let total = body d in if total == 0 then 0 else u64 (total + mmc_cmd_transfer_time)
  where
    target : Option Data → ℕ
    target d = u64 (target_timeout h.clock cmd d * 1000)

    freq : ℕ
    freq = if h.actual_clock == 0 then h.clock else h.actual_clock

    transfer : Data → ℕ
    transfer d = u64 (u64 (d.blksz * 1000000000 * (8 / u8 (1 <<< h.bus_width))) / freq * 2)

    body : Option Data → ℕ
    body none = target none
    body (some d) = u64 (d.blocks * target (some d) + transfer d)

unfoldable pub calc_sw_timeout : Command → Option Data → M (Unit {0})
unfolding sw_timeout
calc_sw_timeout cmd d = do h ← get; put (record h { data_timeout = sw_timeout h cmd d })

-- `while (current < target) { count++; current <<= 1; if (count >= 0xF) break; }`, with fuel.
unfoldable pub count_up : ℕ → ℕ → ℕ → ℕ → ℕ
count_up zero target count current = count
count_up (suc fuel) target count current = elim (ltb current target) [
  | false ↦ count
  | true ↦ elim (leb 15 (count + 1)) [
    | true ↦ count + 1
    | false ↦ count_up fuel target (count + 1) (u32 (current * 2))
  ]
]

-- The count for the timeout control register, and `*too_big`.
unfoldable pub count_for : ℕ → ℕ → ℕ × Bool
unfolding count_up
count_for timeout_clk target =
    let count = count_up 15 target 0 (8192000 / timeout_clk) in
    if leb 15 count then (14, true) else (count, false)

unfoldable pub calc_timeout : Device → Option (Command × Option Data) → ℕ × Bool
unfolding count_for target_timeout
calc_timeout h none = (14, true)
calc_timeout h (some (cmd, none)) =
    if has h.quirks quirk_broken_timeout_val || cmd.busy_timeout == 0
    then (14, true)
    else count_for h.timeout_clk (target_timeout h.clock cmd none)
calc_timeout h (some (cmd, some d)) =
    if has h.quirks quirk_broken_timeout_val
    then (14, true)
    else count_for h.timeout_clk (target_timeout h.clock cmd (some d))

-- `host->ier` is written to both enable registers.
unfoldable pub write_ier : ℕ → M (Unit {0})
write_ier ier = do
  h ← get
  put (record h { ier = ier })
  writel ier int_enable
  writel ier signal_enable

unfoldable pub set_data_timeout_irq : Bool → M (Unit {0})
unfolding write_ier
set_data_timeout_irq enable = do
  h ← get
  write_ier (if enable then bit_or h.ier int_data_timeout else clear 32 h.ier int_data_timeout)

abbrev pub pio_irqs : ℕ
pio_irqs = bit_or int_data_avail int_space_avail

abbrev pub dma_irqs : ℕ
dma_irqs = bit_or int_dma_end int_adma_error

unfoldable pub transfer_ier : ℕ → ℕ → ℕ
transfer_ier flags ier =
    let moved =
      if has flags req_use_dma
      then bit_or (clear 32 ier pio_irqs) dma_irqs
      else bit_or (clear 32 ier dma_irqs) pio_irqs in
    if has flags (bit_or auto_cmd23 auto_cmd12)
    then bit_or moved int_auto_cmd_err
    else clear 32 moved int_auto_cmd_err

unfoldable pub set_transfer_irqs : M (Unit {0})
unfolding write_ier transfer_ier
set_transfer_irqs = do h ← get; write_ier (transfer_ier h.flags h.ier)

unfoldable pub set_timeout : Command → Option Data → M (Unit {0})
unfolding calc_timeout calc_sw_timeout set_data_timeout_irq
set_timeout cmd d = do
  h ← get
  let (count, too_big) = calc_timeout h (some (cmd, d))
  if too_big && has h.quirks2 quirk2_disable_hw_timeout
      then (do calc_sw_timeout cmd d; set_data_timeout_irq false)
      else if has h.ier int_data_timeout
      then ret tt
      else set_data_timeout_irq true
  writeb count timeout_control
