-- ===== src/Slots/Done.antt =====
-- sdhci.c: the timers, the card events, sdhci_complete_work and sdhci_request_atomic, as they bear on
-- the request tracker.
use linux_sdhci_rtt.Base.{
  if_both, ℕ, zero, suc, ◌≡◌, ◌∙◌, ap, Bool, ◌&&◌, not, true, false, Option, none, some,
  if◌then◌else◌, arith, subst, sym, length,
}
use linux_sdhci_rtt.Regs.{reset_cmd, reset_data}
use linux_sdhci_rtt.Device.{◌>>◌}
use linux_sdhci_rtt.Mmc.{Errno, etimedout, enomedium}
use linux_sdhci_rtt.Reset.{get_cd, do_reset}
use linux_sdhci_rtt.Host.{Host, CmdRef, Role, data_line_cmd, on_dev, has_requests}
use linux_sdhci_rtt.Send.{send_command}
use linux_sdhci_rtt.Finish.{is_done, needs_reset}
use linux_sdhci_rtt.Done.{
  first_done, unmap_data, reset_circuits, deliver, request_done_of, request_done, complete_all,
  complete_work, abort_cmd, abort_opt, timeout_timer, timeout_cmd, timeout_data_cmd, timeout_data,
  timeout_data_timer, error_out_mrqs, card_event, present_error, request_atomic, first_command,
}
use linux_sdhci_rtt.Slots.{slots}
use linux_sdhci_rtt.Slots.Safe.{IsSafe, IsSafe-free}
use linux_sdhci_rtt.Slots.Finish.{
  IsTracked, FirstIsTracked, finish_mrq-IsTracked, finish_data-IsTracked, send_command-IsTracked,
}

unmap_data-slots : (id : ℕ) (h : Host) → slots (unmap_data id h) ≡ slots h
unfolding unmap_data
unmap_data-slots id h = ground arith

reset_circuits-slots : (h : Host) → slots (reset_circuits h) ≡ slots h
unfolding reset_circuits
reset_circuits-slots h = ground arith

deliver-IsTracked : (id : ℕ) (h : Host) → IsTracked h → IsTracked (deliver id h)
unfolding deliver
deliver-IsTracked id h safe = IsSafe-free (slots h) safe

request_done_of-IsTracked : (id : ℕ) (h : Host) → IsTracked h → IsTracked (request_done_of id h).0
unfolding request_done_of
request_done_of-IsTracked id h safe =
    let h1 = unmap_data id h in
    let safe1 = subst IsSafe (sym (unmap_data-slots id h)) safe in
    if_both FirstIsTracked (needs_reset h1 (h1.store id))
      (if_both FirstIsTracked (has_requests h1) safe1 (
        deliver-IsTracked id (reset_circuits h1)
          (subst IsSafe (sym (reset_circuits-slots h1)) safe1)))
      (deliver-IsTracked id h1 safe1)

request_done_at :
    (p : Option ℕ) (h : Host)
    → IsTracked h
    → IsTracked
        (elim p as (λ x. Host × Bool) [ none ↦ (h, true) | some id ↦ request_done_of id h ]).0
request_done_at none h safe = safe
request_done_at (some id) h safe = request_done_of-IsTracked id h safe

pub request_done-IsTracked : (h : Host) → IsTracked h → IsTracked (request_done h).0
unfolding request_done
request_done-IsTracked h safe = request_done_at (first_done h.mrqs_done) h safe

complete_all_at :
    (fuel : ℕ) (g : Host) (idle : Bool)
    → IsTracked g
    → IsTracked (complete_all fuel g)
    → IsTracked (elim idle [ true ↦ g | false ↦ complete_all fuel g ])
complete_all_at fuel g true safe rest = safe
complete_all_at fuel g false safe rest = rest

complete_all-IsTracked : (fuel : ℕ) (h : Host) → IsTracked h → IsTracked (complete_all fuel h)
unfolding complete_all
complete_all-IsTracked zero h safe = safe
complete_all-IsTracked (suc fuel) h safe =
    let (g, idle) = request_done h in
    let safe1 = request_done-IsTracked h safe in
    complete_all_at fuel g idle safe1 (complete_all-IsTracked fuel g safe1)

pub complete_work-IsTracked : (h : Host) → IsTracked h → IsTracked (complete_work h)
unfolding complete_work
complete_work-IsTracked h safe = complete_all-IsTracked (suc (length h.mrqs_done)) h safe

abort_cmd-IsTracked :
    (e : Errno) (c : CmdRef) (h : Host) → IsTracked h → IsTracked (abort_cmd e c h)
unfolding abort_cmd
abort_cmd-IsTracked e c h safe = finish_mrq-IsTracked c.mrq _ safe

abort_opt-IsTracked :
    (e : Errno) (p : Option CmdRef) (h : Host) → IsTracked h → IsTracked (abort_opt e p h)
abort_opt-IsTracked e none h safe = safe
abort_opt-IsTracked e (some c) h safe = abort_cmd-IsTracked e c h safe

timeout_timer_at :
    (p : Option CmdRef) (h : Host)
    → IsTracked h
    → IsTracked
        (elim p [ none ↦ h | some c ↦ if data_line_cmd h c then h else abort_cmd etimedout c h ])
timeout_timer_at none h safe = safe
timeout_timer_at (some c) h safe =
    if_both IsTracked (data_line_cmd h c) safe (abort_cmd-IsTracked etimedout c h safe)

pub timeout_timer-IsTracked : (h : Host) → IsTracked h → IsTracked (timeout_timer h)
unfolding timeout_timer
timeout_timer-IsTracked h safe = timeout_timer_at h.cmd h safe

timeout_cmd-IsTracked : (p : Option CmdRef) (h : Host) → IsTracked h → IsTracked (timeout_cmd p h)
unfolding timeout_cmd
timeout_cmd-IsTracked none h safe = safe
timeout_cmd-IsTracked (some c) h safe =
    if_both IsTracked (data_line_cmd h c) (abort_cmd-IsTracked etimedout c h safe) safe

timeout_data_cmd-IsTracked :
    (p : Option CmdRef) (h : Host) → IsTracked h → IsTracked (timeout_data_cmd p h)
unfolding timeout_data_cmd
timeout_data_cmd-IsTracked none h safe = timeout_cmd-IsTracked h.cmd h safe
timeout_data_cmd-IsTracked (some c) h safe = abort_cmd-IsTracked etimedout c h safe

timeout_data-IsTracked : (p : Option ℕ) (h : Host) → IsTracked h → IsTracked (timeout_data p h)
unfolding timeout_data
timeout_data-IsTracked none h safe = timeout_data_cmd-IsTracked h.data_cmd h safe
timeout_data-IsTracked (some id) h safe = finish_data-IsTracked true _ safe

pub timeout_data_timer-IsTracked : (h : Host) → IsTracked h → IsTracked (timeout_data_timer h)
unfolding timeout_data_timer
timeout_data_timer-IsTracked h safe = timeout_data-IsTracked h.payload h safe

pub error_out_mrqs-IsTracked : (e : Errno) (h : Host) → IsTracked h → IsTracked (error_out_mrqs e h)
unfolding error_out_mrqs
error_out_mrqs-IsTracked e h safe =
    let h1 = abort_opt e h.data_cmd h in
    abort_opt-IsTracked e h1.cmd h1 (abort_opt-IsTracked e h.data_cmd h safe)

pub card_event-IsTracked : (h : Host) → IsTracked h → IsTracked (card_event h)
unfolding card_event
card_event-IsTracked h safe =
    let (present, d) = get_cd h.dev in
    let h1 = record h { dev = d } in
    if_both IsTracked (has_requests h1 && not present)
      (error_out_mrqs-IsTracked enomedium (on_dev (do do_reset reset_cmd; do_reset reset_data) h1)
        safe)
      safe

pub present_error-slots :
    (c : CmdRef) (present : Bool) (h : Host) → slots (present_error c present h).0 ≡ slots h
unfolding present_error
present_error-slots c present h = ground arith

pub request_atomic-IsTracked :
    (id : ℕ) (h : Host)
    → is_done id h.mrqs_done ≡ false
    → IsTracked h
    → IsTracked (request_atomic id h).0
unfolding request_atomic
request_atomic-IsTracked id h undone safe =
    let (h1, gone) = present_error (record { mrq = id; role = Role.main }) true h in
    let same = present_error-slots (record { mrq = id; role = Role.main }) true h in
    let safe1 = subst IsSafe (sym same) safe in
    let sent =
      send_command-IsTracked (first_command id h1) h1
        (ap (λ s. is_done id s.mrqs_done) same ∙ undone) safe1 in
    if_both FirstIsTracked gone (finish_mrq-IsTracked id h1 safe1)
      (if_both FirstIsTracked (send_command h1 (first_command id h1)).1 sent sent)
