-- ===== src/Slots/Irq.antt =====
-- sdhci.c: sdhci_cmd_irq and sdhci_data_irq, as they bear on the request tracker.
use linux_sdhci_rtt.Base.{
  if_both, ℕ, ◌&&◌, ◌||◌, ◌==◌, not, false, Option, none, some, is_some, if◌then◌else◌, has, bit_or,
}
use linux_sdhci_rtt.Regs.{
  int_timeout, int_crc, int_auto_cmd_err, int_response, auto_cmd23, auto_cmd12, int_data_timeout,
  int_data_end, int_dma_end, int_data_avail, int_space_avail, command as command_reg,
  auto_cmd_status, auto_cmd_timeout,
}
use linux_sdhci_rtt.Device.{readw}
use linux_sdhci_rtt.Mmc.{Data, Errno, eilseq, etimedout, mmc_rsp_busy}
use linux_sdhci_rtt.Command.{get_cmd}
use linux_sdhci_rtt.Host.{Host, CmdRef, command, cmd_data, same_ptr}
use linux_sdhci_rtt.Irq.{
  fail_cmd, fail_sbc, cmd_errors, cmd_irq_of, cmd_irq_at, auto_cmd12_irq, auto_cmd_irq, cmd_irq,
  busy_irq, data_error, restart_sdma, data_end, data_progress, data_irq_found, data_irq_of,
  data_irq_with, data_irq_at, data_irq,
}
use linux_sdhci_rtt.Slots.{slots}
use linux_sdhci_rtt.Slots.Safe.{IsSafe-drop_cmd, IsSafe-drop_data_cmd}
use linux_sdhci_rtt.Slots.Finish.{
  IsTracked, FirstIsTracked, release_mrq-IsTracked, finish_data-IsTracked, finish_command-IsTracked,
}

fail_cmd-IsTracked : (c : CmdRef) (e : Errno) (h : Host) → IsTracked h → IsTracked (fail_cmd c e h)
unfolding fail_cmd
fail_cmd-IsTracked c e h safe = release_mrq-IsTracked c.mrq _ safe

fail_sbc-IsTracked : (id : ℕ) (e : Errno) (h : Host) → IsTracked h → IsTracked (fail_sbc id e h)
unfolding fail_sbc
fail_sbc-IsTracked id e h safe = release_mrq-IsTracked id _ safe

cmd_irq_of-IsTracked :
    (c : CmdRef) (intmask : ℕ) (h : Host) → IsTracked h → FirstIsTracked (cmd_irq_of c intmask h)
unfolding cmd_irq_of
cmd_irq_of-IsTracked c intmask h safe =
    let timed_out = has intmask int_timeout in
    let e = if timed_out then etimedout else eilseq in
    let (status, d) = readw auto_cmd_status h.dev in
    let h1 = record h { dev = d } in
    if_both FirstIsTracked (has intmask cmd_errors)
      (if_both FirstIsTracked (is_some (cmd_data h c) && has intmask int_crc && not timed_out)
        (IsSafe-drop_cmd (slots h) safe) (fail_cmd-IsTracked c e h safe))
      (if_both FirstIsTracked (has intmask int_auto_cmd_err)
        (if_both FirstIsTracked (is_some (h.store c.mrq).sbc && has h.dev.flags auto_cmd23)
          (fail_sbc-IsTracked c.mrq (if has status auto_cmd_timeout then etimedout else eilseq) h1
            safe)
          (if_both IsTracked (has intmask int_response) (finish_command-IsTracked h1 safe) safe))
        (if_both IsTracked (has intmask int_response) (finish_command-IsTracked h safe) safe))

cmd_irq_at-IsTracked :
    (p : Option CmdRef) (intmask : ℕ) (h : Host)
    → IsTracked h
    → FirstIsTracked (cmd_irq_at p intmask h)
unfolding cmd_irq_at
cmd_irq_at-IsTracked none intmask h safe = safe
cmd_irq_at-IsTracked (some c) intmask h safe = cmd_irq_of-IsTracked c intmask h safe

auto_cmd12_irq-IsTracked :
    (c : CmdRef) (intmask : ℕ) (h : Host)
    → IsTracked h
    → FirstIsTracked (auto_cmd12_irq c intmask h)
unfolding auto_cmd12_irq
auto_cmd12_irq-IsTracked c intmask h safe =
    let h1 = record h { dev = (readw auto_cmd_status h.dev).1 } in
    if_both FirstIsTracked (not (is_some (h.store c.mrq).sbc) && has h.dev.flags auto_cmd12) safe
      (cmd_irq_at-IsTracked h1.cmd intmask h1 safe)

auto_cmd_irq-IsTracked :
    (p : Option CmdRef) (intmask : ℕ) (h : Host)
    → IsTracked h
    → FirstIsTracked (auto_cmd_irq p intmask h)
unfolding auto_cmd_irq
auto_cmd_irq-IsTracked none intmask h safe = cmd_irq_at-IsTracked h.cmd intmask h safe
auto_cmd_irq-IsTracked (some c) intmask h safe = auto_cmd12_irq-IsTracked c intmask h safe

pub cmd_irq-IsTracked : (intmask : ℕ) (h : Host) → IsTracked h → IsTracked (cmd_irq intmask h).0
unfolding cmd_irq
cmd_irq-IsTracked intmask h safe =
    if_both FirstIsTracked (has intmask int_auto_cmd_err)
      (auto_cmd_irq-IsTracked h.data_cmd intmask h safe) (cmd_irq_at-IsTracked h.cmd intmask h safe)

busy_irq-IsTracked :
    (p : Option CmdRef) (intmask : ℕ) (h : Host) → IsTracked h → IsTracked (busy_irq p intmask h)
unfolding busy_irq
busy_irq-IsTracked none intmask h safe = safe
busy_irq-IsTracked (some c) intmask h safe =
    let h1 = record h { data_cmd = none } in
    let dropped = IsSafe-drop_data_cmd (slots h) safe in
    if_both IsTracked (has (command h c).flags mmc_rsp_busy)
      (if_both IsTracked (has intmask int_data_timeout) (fail_cmd-IsTracked c etimedout h1 dropped)
        (if_both IsTracked (has intmask int_data_end)
          (if_both IsTracked (same_ptr h1.cmd (some c)) dropped
            (release_mrq-IsTracked c.mrq h1 dropped))
          safe))
      safe

data_end-IsTracked : (h : Host) → IsTracked h → IsTracked (data_end h)
unfolding data_end
data_end-IsTracked h safe =
    if_both IsTracked (same_ptr h.cmd h.data_cmd) safe (finish_data-IsTracked false h safe)

restart_sdma-IsTracked :
    (id : ℕ) (x : Data) (h : Host) → IsTracked h → IsTracked (restart_sdma id x h)
unfolding restart_sdma
restart_sdma-IsTracked id x h safe = safe

module _ (pio : ℕ → Host → Host)
    (pio-IsTracked : (id : ℕ) (h : Host) → IsTracked h → IsTracked (pio id h)) where
  data_progress-IsTracked :
      (id : ℕ) (x : Data) (intmask : ℕ) (h : Host)
      → IsTracked h
      → IsTracked (data_progress pio id x intmask h)
  unfolding data_progress
  data_progress-IsTracked id x intmask h safe =
      let h1 = if has intmask (bit_or int_data_avail int_space_avail) then pio id h else h in
      let h2 = if has intmask int_dma_end then restart_sdma id x h1 else h1 in
      let safe1 =
        if_both IsTracked (has intmask (bit_or int_data_avail int_space_avail))
          (pio-IsTracked id h safe) safe in
      let safe2 =
        if_both IsTracked (has intmask int_dma_end) (restart_sdma-IsTracked id x h1 safe1) safe1 in
      if_both IsTracked (has intmask int_data_end) (data_end-IsTracked h2 safe2) safe2

  data_irq_found-IsTracked :
      (e : Option Errno) (id : ℕ) (x : Data) (intmask : ℕ) (h : Host)
      → IsTracked h
      → IsTracked (data_irq_found pio e id x intmask h)
  unfolding data_irq_found
  data_irq_found-IsTracked none id x intmask h safe =
      if_both IsTracked (is_some x.error) (finish_data-IsTracked false h safe)
        (data_progress-IsTracked id x intmask h safe)
  data_irq_found-IsTracked (some n) id x intmask h safe = finish_data-IsTracked false _ safe

  data_irq_of-IsTracked :
      (id : ℕ) (x : Data) (intmask : ℕ) (h : Host)
      → IsTracked h
      → IsTracked (data_irq_of pio id x intmask h)
  unfolding data_irq_of
  data_irq_of-IsTracked id x intmask h safe =
      data_irq_found-IsTracked (data_error intmask h.dev).0 id x intmask
        (record h { dev = (data_error intmask h.dev).1 }) safe

  data_irq_with-IsTracked :
      (id : ℕ) (x : Option Data) (intmask : ℕ) (h : Host)
      → IsTracked h
      → IsTracked (data_irq_with pio id x intmask h)
  unfolding data_irq_with
  data_irq_with-IsTracked id none intmask h safe = safe
  data_irq_with-IsTracked id (some x) intmask h safe = data_irq_of-IsTracked id x intmask h safe

  data_irq_at-IsTracked :
      (p : Option ℕ) (intmask : ℕ) (h : Host)
      → IsTracked h
      → IsTracked (data_irq_at pio p intmask h)
  unfolding data_irq_at
  data_irq_at-IsTracked none intmask h safe = busy_irq-IsTracked h.data_cmd intmask h safe
  data_irq_at-IsTracked (some id) intmask h safe =
      data_irq_with-IsTracked id (h.store id).payload intmask h safe

  pub data_irq-IsTracked :
      (intmask : ℕ) (h : Host) → IsTracked h → IsTracked (data_irq pio intmask h)
  unfolding data_irq
  data_irq-IsTracked intmask h safe =
      let (c, d) = readw command_reg h.dev in
      let h1 = record h { dev = d } in
      if_both IsTracked (has intmask int_data_avail)
        (if_both IsTracked
          (get_cmd c == h.opcodes.send_tuning_block
            || get_cmd c == h.opcodes.send_tuning_block_hs200)
          safe (data_irq_at-IsTracked h1.payload intmask h1 safe))
        (data_irq_at-IsTracked h.payload intmask h safe)
