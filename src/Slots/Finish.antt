-- ===== src/Slots/Finish.antt =====
-- sdhci.c: the operations that send and finish commands, data and requests, as they bear on the request
-- tracker.
use linux_sdhci_rtt.Base.{
  if_both, ℕ, ◌≡◌, refl, ◌∙◌, ap, Bool, ◌&&◌, not, true, false, Option, none, some, is_some,
  if◌then◌else◌, arith, subst, sym,
}
use linux_sdhci_rtt.Mmc.{Data, Request}
use linux_sdhci_rtt.Host.{
  Host, CmdRef, same_role, cmd_data, data_line_cmd, Role, update_mrq, on_data,
}
use linux_sdhci_rtt.Send.{send_command, tried}
use linux_sdhci_rtt.Finish.{
  is_done, release_mrq, finish_mrq, recover, stop_outcome, after_data, finish_data_of, finish_data,
  with_data, with_payload, transferred, stop_needed, awaits_busy, read_response, send_actual,
  command_complete, finish_command_of, finish_command,
}
use linux_sdhci_rtt.Slots.{Slots, slots, claim_slots}
use linux_sdhci_rtt.Slots.Safe.{
  IsSafe, IsSafe-release, IsSafe-claim, IsSafe-defer, IsSafe-drop_data, IsSafe-drop_cmd,
  payload-undone, cmd-undone,
}
use linux_sdhci_rtt.Slots.Refine.{send_command-slots, slots-release_mrq, recover-slots}

abbrev pub IsTracked : Host → Type 0
IsTracked h = IsSafe (slots h)

-- A pair whose host is safe.
abbrev pub FirstIsTracked : {A : Type 0} → Host × A → Type 0
FirstIsTracked p = IsTracked p.0

pub release_mrq-IsTracked : (id : ℕ) (h : Host) → IsTracked h → IsTracked (release_mrq id h)
release_mrq-IsTracked id h safe =
    subst IsSafe (sym (slots-release_mrq id h)) (IsSafe-release id (slots h) safe)

pub finish_mrq-IsTracked : (id : ℕ) (h : Host) → IsTracked h → IsTracked (finish_mrq id h)
unfolding finish_mrq
finish_mrq-IsTracked id h safe = release_mrq-IsTracked id h safe

sent-IsSafe :
    (c : CmdRef) (line has_data sent : Bool) (s t : Slots)
    → t ≡ (if sent then claim_slots c line has_data s else s)
    → is_done c.mrq s.mrqs_done ≡ false
    → IsSafe s
    → IsSafe t
sent-IsSafe c line has_data true s t e undone safe =
    subst IsSafe (sym e) (IsSafe-claim c line has_data s undone safe)
sent-IsSafe c line has_data false s t e undone safe = subst IsSafe (sym e) safe

pub send_command-IsTracked :
    (c : CmdRef) (h : Host)
    → is_done c.mrq h.mrqs_done ≡ false
    → IsTracked h
    → IsTracked (send_command h c).0
send_command-IsTracked c h undone safe =
    sent-IsSafe c (data_line_cmd (tried h c) c) (is_some (cmd_data (tried h c) c))
      (send_command h c).1 (slots h) (slots (send_command h c).0) (send_command-slots h c) undone
      safe

either_done :
    (c : CmdRef) (line has_data sent : Bool) (s : Slots)
    → (if sent then claim_slots c line has_data s else s).mrqs_done ≡ s.mrqs_done
either_done c line has_data true s = refl
either_done c line has_data false s = refl

pub mrqs_done-send_command : (c : CmdRef) (h : Host) → (send_command h c).0.mrqs_done ≡ h.mrqs_done
mrqs_done-send_command c h =
    ap (λ s. s.mrqs_done) (send_command-slots h c)
    ∙ either_done c (data_line_cmd (tried h c) c) (is_some (cmd_data (tried h c) c))
        (send_command h c).1 (slots h)

stop_outcome-IsTracked :
    (sw : Bool) (id : ℕ) (p : Host × Bool)
    → is_done id p.0.mrqs_done ≡ false
    → IsTracked p.0
    → IsTracked (stop_outcome sw id p)
unfolding stop_outcome
stop_outcome-IsTracked sw id (h, true) undone safe = safe
stop_outcome-IsTracked true id (h, false) undone safe = release_mrq-IsTracked id _ safe
stop_outcome-IsTracked false id (h, false) undone safe =
    IsSafe-defer (record { mrq = id; role = Role.stop }) (slots h) undone safe

-- The command of the request that is tried next.
abbrev sent_as : Role → ℕ → Host → Host × Bool
sent_as role id h = send_command h (record { mrq = id; role = role })

still_undone :
    (c : CmdRef) (h : Host)
    → is_done c.mrq h.mrqs_done ≡ false
    → is_done c.mrq (send_command h c).0.mrqs_done ≡ false
still_undone c h undone = ap (is_done c.mrq) (mrqs_done-send_command c h) ∙ undone

after_data-IsTracked :
    (sw : Bool) (id : ℕ) (r : Request) (x : Data) (h : Host)
    → is_done id h.mrqs_done ≡ false
    → IsTracked h
    → IsTracked (after_data sw id r x h)
unfolding after_data
after_data-IsTracked sw id r x h undone safe =
    if_both IsTracked (stop_needed h.dev.flags r x && not r.cap_cmd_during_tfr)
      (stop_outcome-IsTracked sw id (sent_as Role.stop id (record h { cmd = none }))
        (still_undone (record { mrq = id; role = Role.stop }) (record h { cmd = none }) undone)
        (send_command-IsTracked (record { mrq = id; role = Role.stop }) (record h { cmd = none })
          undone (IsSafe-drop_cmd (slots h) safe)))
      (release_mrq-IsTracked id h safe)

abbrev recovered : Data → Host → Host
recovered x h = recover h.data_cmd (is_some x.error) (record h { payload = none; data_cmd = none })

recovered-slots :
    (x : Data) (h : Host)
    → slots (recovered x h) ≡ record (slots h) { payload = none; data_cmd = none }
recovered-slots x h =
    recover-slots h.data_cmd (is_some x.error) (record h { payload = none; data_cmd = none })

finish_data_of-IsTracked :
    (sw : Bool) (id : ℕ) (r : Request) (x : Data) (h : Host)
    → is_done id h.mrqs_done ≡ false
    → IsTracked h
    → IsTracked (finish_data_of sw id r x h)
unfolding finish_data_of
finish_data_of-IsTracked sw id r x h undone safe =
    after_data-IsTracked sw id r x (update_mrq id (on_data transferred) (recovered x h))
      (ap (λ s. is_done id s.mrqs_done) (recovered-slots x h) ∙ undone)
      (subst IsSafe (sym (recovered-slots x h)) (IsSafe-drop_data (slots h) safe))

with_data-IsTracked :
    (sw : Bool) (id : ℕ) (d : Option Data) (h : Host)
    → is_done id h.mrqs_done ≡ false
    → IsTracked h
    → IsTracked (with_data sw id d h)
unfolding with_data
with_data-IsTracked sw id none h undone safe = safe
with_data-IsTracked sw id (some x) h undone safe =
    finish_data_of-IsTracked sw id (h.store id) x h undone safe

with_payload-IsTracked :
    (sw : Bool) (p : Option ℕ) (h : Host)
    → h.payload ≡ p
    → IsTracked h
    → IsTracked (with_payload sw p h)
unfolding with_payload
with_payload-IsTracked sw none h e safe = safe
with_payload-IsTracked sw (some id) h e safe =
    with_data-IsTracked sw id (h.store id).payload h (payload-undone id (slots h) safe e) safe

pub finish_data-IsTracked : (sw : Bool) (h : Host) → IsTracked h → IsTracked (finish_data sw h)
unfolding finish_data
finish_data-IsTracked sw h safe = with_payload-IsTracked sw h.payload h refl safe

read_response-slots : (c : CmdRef) (h : Host) → slots (read_response c h) ≡ slots h
unfolding read_response
read_response-slots c h = ground arith

send_actual-IsTracked :
    (id : ℕ) (h : Host)
    → is_done id h.mrqs_done ≡ false
    → IsTracked h
    → IsTracked (send_actual id h)
unfolding send_actual
send_actual-IsTracked id h undone safe =
    let c : CmdRef = record { mrq = id; role = Role.main } in
    let g = (send_command h c).0 in
    let sent = send_command-IsTracked c h undone safe in
    if_both IsTracked (send_command h c).1 sent
      (IsSafe-defer c (slots g) (still_undone c h undone) sent)

command_complete-IsTracked :
    (c : CmdRef) (h : Host) → IsTracked h → IsTracked (command_complete c h)
unfolding command_complete
command_complete-IsTracked c h safe =
    let h1 = if is_some h.payload && h.data_early then finish_data false h else h in
    let over =
      if_both IsTracked (is_some h.payload && h.data_early) (finish_data-IsTracked false h safe)
        safe in
    if_both IsTracked (is_some (cmd_data h c)) over (release_mrq-IsTracked c.mrq h1 over)

finish_command_of-IsTracked :
    (c : CmdRef) (h : Host)
    → is_done c.mrq h.mrqs_done ≡ false
    → IsTracked h
    → IsTracked (finish_command_of c h)
unfolding finish_command_of
finish_command_of-IsTracked c h undone safe =
    let h1 = read_response c (record h { cmd = none }) in
    let same = read_response-slots c (record h { cmd = none }) in
    let free = subst IsSafe (sym same) (IsSafe-drop_cmd (slots h) safe) in
    if_both IsTracked (awaits_busy c h1) free (
      if_both IsTracked (same_role c.role Role.sbc)
        (send_actual-IsTracked c.mrq h1 (ap (λ s. is_done c.mrq s.mrqs_done) same ∙ undone) free)
        (command_complete-IsTracked c h1 free))

finish_command_at :
    (p : Option CmdRef) (h : Host)
    → h.cmd ≡ p
    → IsTracked h
    → IsTracked (elim p [ none ↦ h | some c ↦ finish_command_of c h ])
finish_command_at none h e safe = safe
finish_command_at (some c) h e safe =
    finish_command_of-IsTracked c h (cmd-undone c (slots h) safe e) safe

pub finish_command-IsTracked : (h : Host) → IsTracked h → IsTracked (finish_command h)
unfolding finish_command
finish_command-IsTracked h safe = finish_command_at h.cmd h refl safe
