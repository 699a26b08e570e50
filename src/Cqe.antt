-- ===== src/Cqe.antt =====
-- sdhci.c: sdhci_cqe_enable, sdhci_cqe_disable and sdhci_cqe_irq. `caps1` and `cqe_ier` are the fields of
-- `struct sdhci_host`.
use linux_sdhci_rtt.Base.{
  ℕ, bit_and, bit_or, Bool, true, false, not, ◌&&◌, Option, none, some, ◌==◌, if◌then◌else◌, has,
  clear,
}
use linux_sdhci_rtt.Regs.{
  host_control, block_size, int_status, timeout_control, ctrl_dma_mask, ctrl_adma3, ctrl_adma32,
  ctrl_adma64, can_do_adma3, use_64_bit_dma, quirk2_disable_hw_timeout, int_data_timeout, int_index,
  int_end_bit, int_crc, int_timeout, int_data_end_bit, int_data_crc, int_adma_error, int_error,
  reset_cmd, reset_data,
}
use linux_sdhci_rtt.Device.{M, ◌>>=◌, ◌>>◌, ret, get, put, when, readb, writeb, writew, writel}
use linux_sdhci_rtt.Dma.{make_blksz}
use linux_sdhci_rtt.Mmc.{Errno, eio, etimedout, eilseq}
use linux_sdhci_rtt.Timeout.{write_ier, calc_timeout, set_data_timeout_irq}
use linux_sdhci_rtt.Reset.{do_reset, set_default_irqs}

-- The control register for a controller that fetches its commands by itself.
unfoldable pub cqe_ctrl : Bool → ℕ → ℕ → ℕ → ℕ
cqe_ctrl v4_mode caps1 flags ctrl =
    let rest = clear 8 ctrl ctrl_dma_mask in
    if v4_mode && has caps1 can_do_adma3
    then bit_or rest ctrl_adma3
    else if has flags use_64_bit_dma
    then bit_or rest ctrl_adma64
    else bit_or rest ctrl_adma32

-- sdhci_set_timeout without a command. It tells whether it returns: the software time-out reads the command,
-- which is NULL.
unfoldable pub set_max_timeout : M Bool
set_max_timeout = do
  d ← get
  let (count, too_big) = calc_timeout d none
  if too_big && has d.quirks2 quirk2_disable_hw_timeout then ret false else (do
    when (not (has d.ier int_data_timeout)) (set_data_timeout_irq true)
    writeb count timeout_control
    ret true)

-- It tells whether it returns.
unfoldable pub cqe_enable : ℕ → ℕ → M Bool
cqe_enable caps1 cqe_ier = do
  ctrl ← readb host_control
  d ← get
  writeb (cqe_ctrl d.v4_mode caps1 d.flags ctrl) host_control
  writew (make_blksz d.sdma_boundary 512) block_size
  returns ← set_max_timeout
  if not returns
      then ret false
      else (do write_ier cqe_ier; e ← get; put (record e { cqe_on = true }); ret true)

unfoldable pub cqe_disable : Bool → M (Unit {0})
cqe_disable recovery = do
  set_default_irqs
  d ← get
  put (record d { cqe_on = false })
  when recovery (do do_reset reset_cmd; do_reset reset_data)

abbrev pub bus_errors : ℕ
bus_errors = bit_or int_index (bit_or int_end_bit int_crc)

-- `*cmd_error` and `*data_error`.
unfoldable pub cqe_cmd_error : ℕ → Option Errno
cqe_cmd_error intmask =
    if has intmask bus_errors
    then some eilseq
    else if has intmask int_timeout
    then some etimedout
    else none

unfoldable pub cqe_data_error : ℕ → Option Errno
cqe_data_error intmask =
    if has intmask (bit_or int_data_end_bit int_data_crc)
    then some eilseq
    else if has intmask int_data_timeout
    then some etimedout
    else if has intmask int_adma_error
    then some eio
    else none

-- `none` stands for false, "not for the command queue".
unfoldable pub cqe_irq : ℕ → ℕ → M (Option (Option Errno × Option Errno))
cqe_irq cqe_ier intmask = do
  d ← get
  if not d.cqe_on then ret none else (do
    writel (bit_and intmask cqe_ier) int_status
    let unexpected = clear 32 intmask (bit_or cqe_ier int_error)
    when (not (unexpected == 0)) (writel unexpected int_status)
    ret (some (cqe_cmd_error intmask, cqe_data_error intmask)))
