-- ===== src/Done.antt =====
-- sdhci.c: sdhci_request_done, sdhci_complete_work, the two timers, sdhci_error_out_mrqs,
-- sdhci_card_event, sdhci_present_error, sdhci_send_command_retry, sdhci_request,
-- sdhci_request_atomic and sdhci_thread_irq. What other threads and interrupts do between two tries
-- of sdhci_send_command_retry is the parameter `others`; every other operation is one step. Copies
-- of a bounce buffer are not modelled, nor is `ops->request_done`, which no platform of the
-- repository sets.
pub mod Laws
pub mod Failure
use linux_sdhci_rtt.Base.{
  ℕ, zero, suc, ◌+◌, bit_or, Bool, true, false, not, ◌&&◌, ◌||◌, Option, none, some, List, [], ◌∷◌,
  ◌==◌, is_some, if◌then◌else◌, has, length,
}
use linux_sdhci_rtt.Regs.{
  req_use_dma, quirk_clock_before_reset, reset_cmd, reset_data, device_dead, int_card_insert,
  int_card_remove,
}
use linux_sdhci_rtt.Device.{Device, M, ◌>>=◌, ◌>>◌, ret, get, put}
use linux_sdhci_rtt.Mmc.{Command, Data, Request, Cookie, Errno, eio, etimedout, enomedium}
use linux_sdhci_rtt.Clock.Enable.{set_clock}
use linux_sdhci_rtt.Reset.{do_reset, get_cd, led_activate, card_irqs}
use linux_sdhci_rtt.Command.{manual_cmd23}
use linux_sdhci_rtt.Host.{
  Host, CmdRef, Role, same_ptr, on_dev, update_mrq, update_cmd, on_data, command, cmd_data,
  data_line_cmd, has_requests, set_error, set_data_error,
}
use linux_sdhci_rtt.Send.{send_command}
use linux_sdhci_rtt.Finish.{needs_reset, finish_mrq, finish_data}
use linux_sdhci_rtt.Irq.Handler.{is_mapped}

-- The first request of `mrqs_done`, and its slot freed.
unfoldable pub first_done : List (Option ℕ) → Option ℕ
first_done [] = none
first_done (none ∷ slots) = first_done slots
first_done (some id ∷ slots) = some id

unfoldable pub free_first : List (Option ℕ) → List (Option ℕ)
free_first [] = []
free_first (none ∷ slots) = none ∷ free_first slots
free_first (some id ∷ slots) = none ∷ slots

abbrev pub unmap : Data → Data
unmap x = record x { host_cookie = Cookie.unmapped }

-- "Always unmap the data buffers if they were mapped".
unfoldable pub unmap_data : ℕ → Host → Host
unmap_data id h =
    if has h.dev.flags req_use_dma && is_mapped (h.store id).payload
    then update_mrq id (on_data unmap) h
    else h

-- The reset of both circuits, one after the other, after a kick of the clock where it is wanted.
unfoldable pub reset_circuits : Host → Host
reset_circuits h =
    let h1 =
      if has h.dev.quirks quirk_clock_before_reset
      then record h { dev = (set_clock h.dev.rounds h.dev.clock h.dev).1 }
      else h in
    record (on_dev (do do_reset reset_cmd; do_reset reset_data) h1) { pending_reset = false }

unfoldable pub deliver : ℕ → Host → Host
unfolding free_first
deliver id h = record h { mrqs_done = free_first h.mrqs_done; finished = id ∷ h.finished }

-- Request `id` is the first that is done. The result says that there is nothing more to do now.
unfoldable pub request_done_of : ℕ → Host → Host × Bool
unfolding unmap_data reset_circuits deliver
request_done_of id h =
    let h1 = unmap_data id h in
    if needs_reset h1 (h1.store id)
    then (if has_requests h1 then (h1, true) else (deliver id (reset_circuits h1), false))
    else (deliver id h1, false)

unfoldable pub request_done : Host → Host × Bool
unfolding request_done_of first_done
request_done h = elim (first_done h.mrqs_done) [ none ↦ (h, true) | some id ↦ request_done_of id h ]

-- `while (!sdhci_request_done(host));`, with fuel.
unfoldable pub complete_all : ℕ → Host → Host
unfolding request_done
complete_all zero h = h
complete_all (suc fuel) h =
    let (g, idle) = request_done h in elim idle [ true ↦ g | false ↦ complete_all fuel g ]

-- sdhci_complete_work: a round for each slot, and one that finds them empty.
unfoldable pub complete_work : Host → Host
unfolding complete_all
complete_work h = complete_all (suc (length h.mrqs_done)) h

-- An error for a command in progress.
unfoldable pub abort_cmd : Errno → CmdRef → Host → Host
unfolding finish_mrq
abort_cmd e c h = finish_mrq c.mrq (update_cmd c (set_error (some e)) h)

abbrev pub abort_opt : Errno → Option CmdRef → Host → Host
abort_opt e none h = h
abort_opt e (some c) h = abort_cmd e c h

-- The command timer.
unfoldable pub timeout_timer : Host → Host
unfolding abort_cmd
timeout_timer h = elim h.cmd [
  | none ↦ h
  | some c ↦ if data_line_cmd h c then h else abort_cmd etimedout c h
]

-- The data timer when no data and no command on the data line is known: the command in progress.
unfoldable pub timeout_cmd : Option CmdRef → Host → Host
unfolding abort_cmd
timeout_cmd none h = h
timeout_cmd (some c) h = if data_line_cmd h c then abort_cmd etimedout c h else h

unfoldable pub timeout_data_cmd : Option CmdRef → Host → Host
unfolding abort_cmd timeout_cmd
timeout_data_cmd none h = timeout_cmd h.cmd h
timeout_data_cmd (some c) h = abort_cmd etimedout c h

unfoldable pub timeout_data : Option ℕ → Host → Host
unfolding timeout_data_cmd finish_data
timeout_data none h = timeout_data_cmd h.data_cmd h
timeout_data (some id) h =
    record (finish_data true (update_mrq id (on_data (set_data_error (some etimedout))) h)) {
      complete_work = true;
    }

-- The data timer: the data, or the command that uses the data line.
unfoldable pub timeout_data_timer : Host → Host
unfolding timeout_data
timeout_data_timer h = timeout_data h.payload h

unfoldable pub error_out_mrqs : Errno → Host → Host
unfolding abort_cmd
error_out_mrqs e h = let h1 = abort_opt e h.data_cmd h in abort_opt e h1.cmd h1

-- sdhci_card_event: the card is gone during a transfer.
unfoldable pub card_event : Host → Host
unfolding error_out_mrqs
card_event h =
    let (present, d) = get_cd h.dev in
    let h1 = record h { dev = d } in
    if has_requests h1 && not present
    then error_out_mrqs enomedium (on_dev (do do_reset reset_cmd; do_reset reset_data) h1)
    else h1

unfoldable pub present_error : CmdRef → Bool → Host → Host × Bool
present_error c present h =
    if not present || has h.dev.flags device_dead
    then (update_cmd c (set_error (some enomedium)) h, true)
    else (h, false)

-- `if (cmd == host->deferred_cmd) host->deferred_cmd = NULL;`
abbrev pub undefer : CmdRef → Host → Host
undefer c h = if same_ptr (some c) h.deferred_cmd then record h { deferred_cmd = none } else h

-- `timeout` more tries follow the first. `deferred` is `host->deferred_cmd` at the start, `others n`
-- what happens while the lock is free before the last `n` tries.
unfoldable pub retry : (ℕ → Host → Host) → CmdRef → Option CmdRef → ℕ → Host × Bool → Host × Bool
unfolding present_error
retry others c deferred timeout (h, true) = (undefer c h, true)
retry others c deferred zero (h, false) = (update_cmd c (set_error (some eio)) h, false)
retry others c deferred (suc timeout) (h, false) =
    let (present, d) = get_cd h.dev in
    let h1 = others timeout (record h { dev = d }) in
    let (h2, gone) = present_error c present h1 in
    let again = retry others c deferred timeout (send_command h2 c) in
    if same_ptr (some c) deferred && not (same_ptr (some c) h1.deferred_cmd)
    then (h1, true)
    else if gone
    then (h2, false)
    else again

unfoldable pub send_command_retry : (ℕ → Host → Host) → CmdRef → Host → Host × Bool
unfolding retry send_command
send_command_retry others c h = retry others c h.deferred_cmd 10 (send_command h c)

abbrev pub first_command : ℕ → Host → CmdRef
first_command id h = record {
  mrq = id;
  role = if manual_cmd23 h.dev.flags (h.store id) then Role.sbc else Role.main;
}

abbrev pub finish_unless : ℕ → Host × Bool → Host
finish_unless id (h, true) = h
finish_unless id (h, false) = finish_mrq id h

unfoldable pub request : (ℕ → Host → Host) → ℕ → Host → Host
unfolding send_command_retry finish_mrq present_error
request others id h =
    let (present, d) = get_cd h.dev in
    let h1 = on_dev led_activate (record h { dev = d }) in
    let (h2, gone) = present_error (record { mrq = id; role = Role.main }) present h1 in
    if gone
    then finish_mrq id h2
    else finish_unless id (send_command_retry others (first_command id h2) h2)

-- sdhci_request_atomic: the result says that the controller is busy.
unfoldable pub request_atomic : ℕ → Host → Host × Bool
unfolding finish_mrq present_error
request_atomic id h =
    let (h1, gone) = present_error (record { mrq = id; role = Role.main }) true h in
    let (h2, sent) = send_command h1 (first_command id h1) in
    if gone
    then (finish_mrq id h1, false)
    else if sent
    then (on_dev led_activate h2, false)
    else (h2, true)

-- The interrupt thread: completes requests, then sends the deferred command.
unfoldable pub thread_irq : (ℕ → Host → Host) → Host → Host
unfolding complete_work send_command_retry finish_mrq card_event
thread_irq others h =
    let h1 = complete_work h in
    let isr = h1.thread_isr in
    let h2 = record h1 { thread_isr = 0 } in
    let h3 : Host = elim h2.deferred_cmd [
      | none ↦ h2
      | some c ↦ finish_unless c.mrq (send_command_retry others c h2)
    ] in
    if has isr card_irqs then card_event h3 else h3
