-- ===== src/Slots/Retry.antt =====
-- sdhci.c: sdhci_send_command_retry, sdhci_request and sdhci_thread_irq, as they bear on the request
-- tracker; and what is asked of the others who take the lock.
use linux_sdhci_rtt.Base.{
  if_both, if_case, ℕ, zero, suc, ◌≡◌, refl, ◌∙◌, ap, Bool, ◌&&◌, ◌==◌, not, true, false, Option,
  none, some, ◌⊎◌, is_some, if◌then◌else◌, arith, inl, inr, has, subst, sym,
}
use linux_sdhci_rtt.Reset.{get_cd, card_irqs, led_activate}
use linux_sdhci_rtt.Host.{Host, CmdRef, Role, same_ptr, same_role, data_line_cmd, cmd_data, on_dev}
use linux_sdhci_rtt.Send.{send_command, tried}
use linux_sdhci_rtt.Finish.{is_done}
use linux_sdhci_rtt.Done.{
  present_error, undefer, retry, send_command_retry, first_command, finish_unless, request,
  thread_irq, complete_work,
}
use linux_sdhci_rtt.Slots.{Slots, slots, refs, claim_slots}
use linux_sdhci_rtt.Slots.Safe.{IsSafe, IsSafe-undefer, deferred-undone}
use linux_sdhci_rtt.Slots.Refine.{send_command-slots}
use linux_sdhci_rtt.Slots.Finish.{
  IsTracked, FirstIsTracked, finish_mrq-IsTracked, send_command-IsTracked,
}
use linux_sdhci_rtt.Slots.Done.{present_error-slots, complete_work-IsTracked, card_event-IsTracked}

-- What the others may do: they keep the tracker safe, and leave a request alone that they cannot
-- know.
pub record IsFair (others : ℕ → Host → Host) : Type 0 where
  pub keeps : (n : ℕ) (h : Host) → IsTracked h → IsTracked (others n h)
  pub leaves :
      (n id : ℕ) (h : Host)
      → refs id (slots h) ≡ false
      → is_done id h.mrqs_done ≡ false
      → (refs id (slots (others n h)) ≡ false) × (is_done id (others n h).mrqs_done ≡ false)

-- The command is new, or it was deferred.
abbrev IsNew : CmdRef → Slots → Type 0
IsNew c s = (refs c.mrq s ≡ false) × (is_done c.mrq s.mrqs_done ≡ false)

abbrev IsWaiting : CmdRef → Option CmdRef → Slots → Type 0
IsWaiting c deferred s = (same_ptr (some c) deferred ≡ true) ⊎ IsNew c s

same_ptr_refl : (c : CmdRef) → same_ptr (some c) (some c) ≡ true
same_ptr_refl c = elim c.role as (λ r. (c.mrq == c.mrq && same_role r r) ≡ true) [
  | Role.sbc ↦ ground arith
  | Role.main ↦ ground arith
  | Role.stop ↦ ground arith
]

undefer-IsTracked : (c : CmdRef) (h : Host) → IsTracked h → IsTracked (undefer c h)
undefer-IsTracked c h safe =
    if_both IsTracked (same_ptr (some c) h.deferred_cmd) (IsSafe-undefer (slots h) safe) safe

-- A try that failed has left the tracker alone.
send_failed :
    (c : CmdRef) (h : Host) → (send_command h c).1 ≡ false → slots (send_command h c).0 ≡ slots h
send_failed c h e =
    send_command-slots h c
    ∙ ap
        (λ b.
          if b
          then claim_slots c (data_line_cmd (tried h c) c) (is_some (cmd_data (tried h c) c))
              (slots h)
          else slots h)
        e

module _ (others : ℕ → Host → Host) (fair : IsFair others) (c : CmdRef)
    (deferred : Option CmdRef) where
  next-IsWaiting :
      (n : ℕ) (h : Host)
      → IsTracked h
      → IsWaiting c deferred (slots h)
      → (same_ptr (some c) deferred && not (same_ptr (some c) (others n h).deferred_cmd)) ≡ false
      → (is_done c.mrq (others n h).mrqs_done ≡ false) × IsWaiting c deferred (slots (others n h))
  next-IsWaiting n h safe (inl was) e =
      (deferred-undone c (slots (others n h)) (fair.keeps n h safe) (ground arith), inl was)
  next-IsWaiting n h safe (inr new) e =
      ((fair.leaves n c.mrq h new.0 new.1).1, inr (fair.leaves n c.mrq h new.0 new.1))

  pub retry-IsTracked :
      (timeout : ℕ) (p : Host × Bool)
      → IsTracked p.0
      → (p.1 ≡ false → IsWaiting c deferred (slots p.0))
      → FirstIsTracked (retry others c deferred timeout p)
  unfolding retry
  retry-IsTracked timeout (h, true) safe waiting = undefer-IsTracked c h safe
  retry-IsTracked zero (h, false) safe waiting = safe
  retry-IsTracked (suc timeout) (h, false) safe waiting =
      let (present, d) = get_cd h.dev in
      let h0 = record h { dev = d } in
      let h1 = others timeout h0 in
      let (h2, gone) = present_error c present h1 in
      let same = present_error-slots c present h1 in
      let safe1 = fair.keeps timeout h0 safe in
      let safe2 : IsTracked h2 = subst IsSafe (sym same) safe1 in
      if_case FirstIsTracked (same_ptr (some c) deferred && not (same_ptr (some c) h1.deferred_cmd))
        (λ _. safe1)
        (λ e.
          let w = next-IsWaiting timeout h0 safe (waiting refl) e in
          if_both FirstIsTracked gone safe2 (
            retry-IsTracked timeout (send_command h2 c)
              (send_command-IsTracked c h2 (ap (λ s. is_done c.mrq s.mrqs_done) same ∙ w.0) safe2)
              (λ refused.
                subst (IsWaiting c deferred) (sym (send_failed c h2 refused ∙ same)) w.1)))

module _ (others : ℕ → Host → Host) (fair : IsFair others) where
  send_command_retry-IsTracked :
      (c : CmdRef) (h : Host)
      → IsTracked h
      → is_done c.mrq h.mrqs_done ≡ false
      → IsWaiting c h.deferred_cmd (slots h)
      → FirstIsTracked (send_command_retry others c h)
  unfolding send_command_retry
  send_command_retry-IsTracked c h safe undone waiting =
      retry-IsTracked others fair c h.deferred_cmd 10 (send_command h c)
        (send_command-IsTracked c h undone safe)
        (λ refused. subst (IsWaiting c h.deferred_cmd) (sym (send_failed c h refused)) waiting)

  finish_unless-IsTracked :
      (id : ℕ) (p : Host × Bool) → FirstIsTracked p → IsTracked (finish_unless id p)
  finish_unless-IsTracked id (h, true) safe = safe
  finish_unless-IsTracked id (h, false) safe = finish_mrq-IsTracked id h safe

  -- A new request is one that no pointer leads to and that is not done. Starting one, with up to eleven
  -- tries of its command while the lock comes free, keeps the tracker safe.
  pub request-IsTracked :
      (id : ℕ) (h : Host)
      → refs id (slots h) ≡ false
      → is_done id h.mrqs_done ≡ false
      → IsTracked h
      → IsTracked (request others id h)
  unfolding request
  request-IsTracked id h fresh undone safe =
      let (present, d) = get_cd h.dev in
      let h1 = on_dev led_activate (record h { dev = d }) in
      let main : CmdRef = record { mrq = id; role = Role.main } in
      let (h2, gone) = present_error main present h1 in
      let same = present_error-slots main present h1 in
      let safe2 : IsTracked h2 = subst IsSafe (sym same) safe in
      let undone2 : is_done id h2.mrqs_done ≡ false =
        ap (λ s. is_done id s.mrqs_done) same ∙ undone in
      if_both IsTracked gone (finish_mrq-IsTracked id h2 safe2) (
        finish_unless-IsTracked id (send_command_retry others (first_command id h2) h2) (
          send_command_retry-IsTracked (first_command id h2) h2 safe2 undone2
            (inr (ap (refs id) same ∙ fresh, undone2))))

  deferred_sent :
      (p : Option CmdRef) (h : Host)
      → h.deferred_cmd ≡ p
      → IsTracked h
      → IsTracked (elim p as (λ x. Host) [
        | none ↦ h
        | some c ↦ finish_unless c.mrq (send_command_retry others c h)
      ])
  deferred_sent none h e safe = safe
  deferred_sent (some c) h e safe =
      let same : same_ptr (some c) h.deferred_cmd ≡ true =
        ap (same_ptr (some c)) e ∙ same_ptr_refl c in
      finish_unless-IsTracked c.mrq (send_command_retry others c h)
        (send_command_retry-IsTracked c h safe (deferred-undone c (slots h) safe same) (inl same))

  -- The interrupt thread, which completes requests and sends the deferred command, keeps the tracker
  -- safe.
  pub thread_irq-IsTracked : (h : Host) → IsTracked h → IsTracked (thread_irq others h)
  unfolding thread_irq
  thread_irq-IsTracked h safe =
      let h1 = complete_work h in
      let isr = h1.thread_isr in
      let h2 = record h1 { thread_isr = 0 } in
      let safe2 = complete_work-IsTracked h safe in
      let h3 : Host = elim h2.deferred_cmd [
        | none ↦ h2
        | some c ↦ finish_unless c.mrq (send_command_retry others c h2)
      ] in
      let safe3 : IsTracked h3 = deferred_sent h2.deferred_cmd h2 refl safe2 in
      if_both IsTracked (has isr card_irqs) (card_event-IsTracked h3 safe3) safe3
