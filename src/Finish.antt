-- ===== src/Finish.antt =====
-- sdhci.c: sdhci_del_timer, sdhci_needs_reset, sdhci_set_mrq_done, __sdhci_finish_mrq,
-- sdhci_finish_mrq, __sdhci_finish_data and sdhci_finish_command. The copy out of the align buffer
-- (sdhci_adma_table_post) is in the model of the DMA tables; mmc_command_done of the port does
-- nothing.
pub mod Laws
use linux_sdhci_rtt.Base.{
  ℕ, zero, suc, ◌+◌, ◌*◌, Bool, true, false, not, ◌&&◌, ◌||◌, Option, none, some, List, [], ◌∷◌,
  ◌==◌, is_some, if◌then◌else◌, has, u32,
}
use linux_sdhci_rtt.Regs.{
  device_dead, quirk_reset_after_request, reset_cmd, reset_data, quirk_no_busy_irq, response,
}
use linux_sdhci_rtt.Device.{Device, M, readl}
use linux_sdhci_rtt.Mmc.{
  Command, Data, Request, Resp, Errno, eio, mmc_rsp_present, mmc_rsp_136, mmc_rsp_busy,
}
use linux_sdhci_rtt.Response.{read_rsp_136}
use linux_sdhci_rtt.Reset.{do_reset, led_deactivate}
use linux_sdhci_rtt.Command.{uses_auto_cmd12}
use linux_sdhci_rtt.Host.{
  Host, CmdRef, Role, same_role, same_ref, same_ptr, on_dev, update_mrq, update_cmd, on_data,
  command, cmd_data, data_line_cmd, has_requests, set_error, stop_of, on_command, on_stop,
}
use linux_sdhci_rtt.Send.{send_command}

unfoldable pub del_timer : ℕ → Host → Host
del_timer id h =
    if data_line_cmd h (record { mrq = id; role = Role.main })
    then record h { data_timer = none }
    else record h { timer = none }

abbrev pub failed : Option Command → Bool
failed none = false
failed (some c) = is_some c.error

unfoldable pub needs_reset : Host → Request → Bool
needs_reset h r =
    not (has h.dev.flags device_dead)
    && (is_some r.cmd.error
        || failed r.sbc
        || failed (stop_of r.payload)
        || has h.dev.quirks quirk_reset_after_request)

abbrev pub is_mrq : ℕ → Option ℕ → Bool
is_mrq id none = false
is_mrq id (some n) = n == id

-- The first loop: is the request there already? The second: it takes the first free slot.
unfoldable pub is_done : ℕ → List (Option ℕ) → Bool
is_done id [] = false
is_done id (s ∷ slots) = is_mrq id s || is_done id slots

unfoldable pub take_slot : ℕ → List (Option ℕ) → List (Option ℕ)
take_slot id [] = []
take_slot id (none ∷ slots) = some id ∷ slots
take_slot id (some n ∷ slots) = some n ∷ take_slot id slots

unfoldable pub set_mrq_done : ℕ → List (Option ℕ) → List (Option ℕ)
unfolding is_done take_slot
set_mrq_done id slots = if is_done id slots then slots else take_slot id slots

-- `if (host->cmd && host->cmd->mrq == mrq) host->cmd = NULL;`
abbrev pub drop_ref : ℕ → Option CmdRef → Option CmdRef
drop_ref id none = none
drop_ref id (some c) = if c.mrq == id then none else some c

abbrev pub drop_data : ℕ → Option ℕ → Option ℕ
drop_data id none = none
drop_data id (some n) = if n == id then none else some n

-- __sdhci_finish_mrq.
unfoldable pub release_mrq : ℕ → Host → Host
unfolding needs_reset set_mrq_done del_timer
release_mrq id h =
    let h1 = record h {
      cmd = drop_ref id h.cmd;
      data_cmd = drop_ref id h.data_cmd;
      deferred_cmd = drop_ref id h.deferred_cmd;
      payload = drop_data id h.payload;
      pending_reset = h.pending_reset || needs_reset h (h.store id);
      mrqs_done = set_mrq_done id h.mrqs_done;
    } in
    let h2 = del_timer id h1 in if has_requests h2 then h2 else on_dev led_deactivate h2

-- sdhci_finish_mrq also queues the work that completes requests.
unfoldable pub finish_mrq : ℕ → Host → Host
unfolding release_mrq
finish_mrq id h = record (release_mrq id h) { complete_work = true }

abbrev pub transferred : Data → Data
transferred x = record x { bytes_xfered = if is_some x.error then 0 else u32 (x.blksz * x.blocks) }

-- The reset of the circuits after a data error. The command circuit is left alone while another
-- command uses it.
unfoldable pub recover : Option CmdRef → Bool → Host → Host
recover data_cmd error h =
    if error
    then (let h1 =
          if not (is_some h.cmd) || same_ptr h.cmd data_cmd
          then on_dev (do_reset reset_cmd) h
          else h in
        on_dev (do_reset reset_data) h1)
    else h

-- A stop command that the controller does not take at once is deferred; a software time-out gives
-- up.
unfoldable pub stop_outcome : Bool → ℕ → Host × Bool → Host
unfolding release_mrq
stop_outcome sw_data_timeout id (h, true) = h
stop_outcome sw_data_timeout id (h, false) =
    if sw_data_timeout
    then release_mrq id (update_mrq id (on_data (on_stop (set_error (some eio)))) h)
    else record h { deferred_cmd = some (record { mrq = id; role = Role.stop }) }

-- CMD12 is sent after an open-ended transfer without automatic CMD12, or after an error.
unfoldable pub stop_needed : ℕ → Request → Data → Bool
unfolding uses_auto_cmd12
stop_needed flags r x =
    is_some x.stop && (not (is_some r.sbc) && not (uses_auto_cmd12 flags r) || is_some x.error)

unfoldable pub after_data : Bool → ℕ → Request → Data → Host → Host
unfolding release_mrq stop_outcome stop_needed
after_data sw_data_timeout id r x h =
    if stop_needed h.dev.flags r x && not r.cap_cmd_during_tfr
    then stop_outcome sw_data_timeout id
        (send_command (record h { cmd = none }) (record { mrq = id; role = Role.stop }))
    else release_mrq id h

-- The data of request `id` is over; `r` and `x` are the request and its data before.
unfoldable pub finish_data_of : Bool → ℕ → Request → Data → Host → Host
unfolding recover after_data
finish_data_of sw_data_timeout id r x h =
    let h1 = recover h.data_cmd (is_some x.error) (record h { payload = none; data_cmd = none }) in
    after_data sw_data_timeout id r x (update_mrq id (on_data transferred) h1)

unfoldable pub with_data : Bool → ℕ → Option Data → Host → Host
unfolding finish_data_of
with_data sw_data_timeout id none h = h
with_data sw_data_timeout id (some x) h = finish_data_of sw_data_timeout id (h.store id) x h

unfoldable pub with_payload : Bool → Option ℕ → Host → Host
unfolding with_data
with_payload sw_data_timeout none h = h
with_payload sw_data_timeout (some id) h = with_data sw_data_timeout id (h.store id).payload h

-- __sdhci_finish_data, which its callers call with data only.
unfoldable pub finish_data : Bool → Host → Host
unfolding with_payload
finish_data sw_data_timeout h = with_payload sw_data_timeout h.payload h

abbrev pub set_resp : Resp → Command → Command
set_resp r c = record c { resp = r }

abbrev pub set_word : ℕ → Command → Command
set_word v c = record c { resp = record (c.resp) { w0 = v } }

-- The response registers are read into the command.
unfoldable pub read_response : CmdRef → Host → Host
read_response c h =
    let k = command h c in
    if has k.flags mmc_rsp_present
    then (if has k.flags mmc_rsp_136
        then (let (r, d) = read_rsp_136 h.dev in update_cmd c (set_resp r) (record h { dev = d }))
        else (let (v, d) = readl response h.dev in
            update_cmd c (set_word v) (record h { dev = d })))
    else h

-- "Command complete before busy is ended": the end of the busy signal will finish it.
unfoldable pub awaits_busy : CmdRef → Host → Bool
awaits_busy c h =
    has (command h c).flags mmc_rsp_busy
    && not (is_some (cmd_data h c))
    && not (has h.dev.quirks quirk_no_busy_irq)
    && same_ptr (some c) h.data_cmd

-- The actual command after CMD23, or later.
unfoldable pub send_actual : ℕ → Host → Host
unfolding send_command
send_actual id h =
    let actual : CmdRef = record { mrq = id; role = Role.main } in
    let (g, sent) = send_command h actual in
    if sent then g else record g { deferred_cmd = some actual }

unfoldable pub command_complete : CmdRef → Host → Host
unfolding finish_data release_mrq
command_complete c h =
    let h1 = if is_some h.payload && h.data_early then finish_data false h else h in
    if is_some (cmd_data h c) then h1 else release_mrq c.mrq h1

unfoldable pub finish_command_of : CmdRef → Host → Host
unfolding read_response awaits_busy send_actual command_complete
finish_command_of c h =
    let h1 = read_response c (record h { cmd = none }) in
    if awaits_busy c h1
    then h1
    else if same_role c.role Role.sbc
    then send_actual c.mrq h1
    else command_complete c h1

-- sdhci_finish_command, which its caller calls with a command only.
unfoldable pub finish_command : Host → Host
unfolding finish_command_of
finish_command h = elim h.cmd [ none ↦ h | some c ↦ finish_command_of c h ]
