-- ===== src/Irq.antt =====
-- sdhci.c: sdhci_cmd_irq, sdhci_data_irq, sdhci_defer_done and sdhci_irq. `ops->irq` and
-- `ops->adma_workaround` are not set by the platforms of the repository; messages and register dumps
-- are left out. The transfer of PIO blocks is a parameter of the interrupt handler, `pio`.
pub mod Handler
use linux_sdhci_rtt.Base.{
  ℕ, zero, suc, ◌+◌, ◌-◌, ◌*◌, ◌/◌, ◌%◌, ◌^◌, bit_and, bit_or, Bool, true, false, not, ◌&&◌, ◌||◌,
  Option, none, some, List, [], ◌∷◌, ◌==◌, is_some, if◌then◌else◌, has, clear, u32, u64,
}
use linux_sdhci_rtt.Regs.{
  int_auto_cmd_err, auto_cmd_status, auto_cmd_timeout, int_data_timeout, int_data_crc, auto_cmd12,
  auto_cmd23, int_timeout, int_crc, int_end_bit, int_index, int_response, int_data_avail,
  int_space_avail, int_data_end, int_data_end_bit, int_adma_error, int_dma_end,
  command as command_reg, int_status, int_enable, signal_enable, int_cmd_mask, int_data_mask,
  int_bus_power, int_card_insert, int_card_remove, int_card_int, int_retune, int_error,
  present_state, card_present, req_use_dma,
}
use linux_sdhci_rtt.Device.{Device, M, ◌>>=◌, ◌>>◌, ret, get, put, readl, readw, writel}
use linux_sdhci_rtt.Mmc.{
  Command, Data, Request, Cookie, Errno, eio, etimedout, eilseq, mmc_bus_test_r, mmc_rsp_busy,
}
use linux_sdhci_rtt.Command.{get_cmd}
use linux_sdhci_rtt.Dma.{set_sdma_addr}
use linux_sdhci_rtt.Timeout.{write_ier}
use linux_sdhci_rtt.Host.{
  Host, CmdRef, Role, same_ptr, on_dev, update_mrq, update_cmd, on_data, on_command, command,
  cmd_data, set_error, set_data_error,
}
use linux_sdhci_rtt.Send.{sdma_address}
use linux_sdhci_rtt.Finish.{release_mrq, finish_data, finish_command}

-- The command that an interrupt concerns has failed.
unfoldable pub fail_cmd : CmdRef → Errno → Host → Host
unfolding release_mrq
fail_cmd c e h = release_mrq c.mrq (update_cmd c (set_error (some e)) h)

-- An error of automatic CMD23.
unfoldable pub fail_sbc : ℕ → Errno → Host → Host
unfolding release_mrq
fail_sbc id e h = release_mrq id (update_mrq id (on_command Role.sbc (set_error (some e))) h)

abbrev pub cmd_errors : ℕ
cmd_errors = bit_or int_timeout (bit_or int_crc (bit_or int_end_bit int_index))

-- The second half of sdhci_cmd_irq: a command is in progress. The bits are those that it adds to
-- `*intmask_p`.
unfoldable pub cmd_irq_of : CmdRef → ℕ → Host → Host × ℕ
unfolding fail_cmd fail_sbc finish_command
cmd_irq_of c intmask h =
    let timed_out = has intmask int_timeout in
    let e = if timed_out then etimedout else eilseq in
    if has intmask cmd_errors
    then (if is_some (cmd_data h c) && has intmask int_crc && not timed_out
        then (update_cmd c (set_error (some e)) (record h { cmd = none }), int_data_crc)
        else (fail_cmd c e h, 0))
    else if has intmask int_auto_cmd_err
    then (let (status, d) = readw auto_cmd_status h.dev in
        let h1 = record h { dev = d } in
        if is_some (h.store c.mrq).sbc && has h.dev.flags auto_cmd23
        then (fail_sbc c.mrq (if has status auto_cmd_timeout then etimedout else eilseq) h1, 0)
        else (if has intmask int_response then finish_command h1 else h1, 0))
    else (if has intmask int_response then finish_command h else h, 0)

-- No command is in progress: nothing is done, with a message or without.
unfoldable pub cmd_irq_at : Option CmdRef → ℕ → Host → Host × ℕ
unfolding cmd_irq_of
cmd_irq_at none intmask h = (h, 0)
cmd_irq_at (some c) intmask h = cmd_irq_of c intmask h

-- The first half: an error of automatic CMD12 counts as an error of the data.
unfoldable pub auto_cmd12_irq : CmdRef → ℕ → Host → Host × ℕ
unfolding cmd_irq_at
auto_cmd12_irq dc intmask h =
    let (status, d) = readw auto_cmd_status h.dev in
    let h1 = record h { dev = d } in
    if not (is_some (h.store dc.mrq).sbc) && has h.dev.flags auto_cmd12
    then (h1, if has status auto_cmd_timeout then int_data_timeout else int_data_crc)
    else cmd_irq_at h1.cmd intmask h1

unfoldable pub auto_cmd_irq : Option CmdRef → ℕ → Host → Host × ℕ
unfolding auto_cmd12_irq cmd_irq_at
auto_cmd_irq none intmask h = cmd_irq_at h.cmd intmask h
auto_cmd_irq (some dc) intmask h = auto_cmd12_irq dc intmask h

unfoldable pub cmd_irq : ℕ → Host → Host × ℕ
unfolding auto_cmd_irq cmd_irq_at
cmd_irq intmask h =
    if has intmask int_auto_cmd_err
    then auto_cmd_irq h.data_cmd intmask h
    else cmd_irq_at h.cmd intmask h

-- No data is in progress: the end of a busy signal, which may come before its command is complete.
unfoldable pub busy_irq : Option CmdRef → ℕ → Host → Host
unfolding fail_cmd release_mrq
busy_irq none intmask h = h
busy_irq (some dc) intmask h =
    if has (command h dc).flags mmc_rsp_busy
    then (if has intmask int_data_timeout
        then fail_cmd dc etimedout (record h { data_cmd = none })
        else if has intmask int_data_end
        then (let h1 = record h { data_cmd = none } in
            if same_ptr h1.cmd (some dc) then h1 else release_mrq dc.mrq h1)
        else h)
    else h

-- The error that the interrupt bits tell, and the device after the command register was read.
unfoldable pub data_error : ℕ → Device → Option Errno × Device
data_error intmask d =
    if has intmask int_data_timeout
    then (some etimedout, d)
    else if has intmask int_data_end_bit
    then (some eilseq, d)
    else if has intmask int_data_crc
    then (let (c, d1) = readw command_reg d in
        if get_cmd c == mmc_bus_test_r
        then (if has intmask int_adma_error then some eio else none, d1)
        else (some eilseq, d1))
    else (if has intmask int_adma_error then some eio else none, d)

-- SDHCI_DEFAULT_BOUNDARY_SIZE.
abbrev pub boundary : ℕ
boundary = 512 * 1024

-- "Force update to the next DMA block boundary": the bytes that are counted as transferred.
unfoldable pub next_boundary : ℕ → ℕ → ℕ
next_boundary start xfered = u64 (u64 (start + xfered) / boundary * boundary + boundary)

unfoldable pub restart_sdma : ℕ → Data → Host → Host
unfolding next_boundary
restart_sdma id x h =
    let start = sdma_address h x in
    let now = next_boundary start x.bytes_xfered in
    on_dev (set_sdma_addr now)
      (update_mrq id (on_data (λ y. record y { bytes_xfered = u32 (now + 2 ^ 64 - start) })) h)

unfoldable pub data_end : Host → Host
unfolding finish_data
data_end h =
    if same_ptr h.cmd h.data_cmd then record h { data_early = true } else finish_data false h

module _ (pio : ℕ → Host → Host) where
  -- The data of request `id` goes on without an error.
  unfoldable pub data_progress : ℕ → Data → ℕ → Host → Host
  unfolding restart_sdma data_end
  data_progress id x intmask h =
      let h1 = if has intmask (bit_or int_data_avail int_space_avail) then pio id h else h in
      let h2 = if has intmask int_dma_end then restart_sdma id x h1 else h1 in
      if has intmask int_data_end then data_end h2 else h2

  -- The interrupt tells an error, or not.
  unfoldable pub data_irq_found : Option Errno → ℕ → Data → ℕ → Host → Host
  unfolding data_progress finish_data
  data_irq_found (some n) id x intmask h =
      finish_data false (update_mrq id (on_data (set_data_error (some n))) h)
  data_irq_found none id x intmask h =
      if is_some x.error then finish_data false h else data_progress id x intmask h

  unfoldable pub data_irq_of : ℕ → Data → ℕ → Host → Host
  unfolding data_error data_irq_found
  data_irq_of id x intmask h =
      let (e, d) = data_error intmask h.dev in data_irq_found e id x intmask (record h { dev = d })

  unfoldable pub data_irq_with : ℕ → Option Data → ℕ → Host → Host
  unfolding data_irq_of
  data_irq_with id none intmask h = h
  data_irq_with id (some x) intmask h = data_irq_of id x intmask h

  unfoldable pub data_irq_at : Option ℕ → ℕ → Host → Host
  unfolding data_irq_with busy_irq
  data_irq_at none intmask h = busy_irq h.data_cmd intmask h
  data_irq_at (some id) intmask h = data_irq_with id (h.store id).payload intmask h

  -- The tuning commands only signal that their block has come.
  unfoldable pub data_irq : ℕ → Host → Host
  unfolding data_irq_at
  data_irq intmask h =
      if has intmask int_data_avail
      then (let (c, d) = readw command_reg h.dev in
          let h1 = record h { dev = d } in
          if get_cmd c == h.opcodes.send_tuning_block
            || get_cmd c == h.opcodes.send_tuning_block_hs200
          then record h1 { tuning_done = true }
          else data_irq_at h1.payload intmask h1)
      else data_irq_at h.payload intmask h
