-- ===== src/Done/Failure.antt =====
-- sdhci_send_command_retry: a command that is not sent.
use linux_sdhci_rtt.Base.{
  ℕ, zero, suc, ◌≡◌, ap, ◌⊎◌, inl, inr, Bool, true, false, not, ◌&&◌, ◌||◌, Option, some, has,
  if_case, arith,
}
use linux_sdhci_rtt.Regs.{device_dead}
use linux_sdhci_rtt.Mmc.{Errno, eio, enomedium}
use linux_sdhci_rtt.Reset.{get_cd}
use linux_sdhci_rtt.Host.{
  main_of, Host, CmdRef, Role, command, update_cmd, set_error, same_ptr, on_command,
}
use linux_sdhci_rtt.Send.{send_command}
use linux_sdhci_rtt.Send.Laws.{update-same}
use linux_sdhci_rtt.Done.{present_error, retry, send_command_retry}

-- The two errors of a command that could not be sent.
abbrev pub HasFailed : ℕ → Host → Type 0
HasFailed id h =
    ((command h (main_of id)).error ≡ some eio) ⊎ ((command h (main_of id)).error ≡ some enomedium)

error-set_error :
    (id : ℕ) (e : Errno) (h : Host)
    → (command (update_cmd (main_of id) (set_error (some e)) h) (main_of id)).error ≡ some e
error-set_error id e h =
    ap (λ r. r.cmd.error) (update-same id (on_command Role.main (set_error (some e))) h.store)

absurd_bool : {A : Type 0} → false ≡ true → A
absurd_bool e = ground arith

absurd_sent : {A : Type 0} → true ≡ false → A
absurd_sent e = ground arith

-- No card, or a dead device: the command has failed.
present_error-HasFailed :
    (id : ℕ) (present : Bool) (h : Host)
    → (present_error (main_of id) present h).1 ≡ true
    → HasFailed id (present_error (main_of id) present h).0
unfolding present_error
present_error-HasFailed id present h =
    if_case (λ (p : Host × Bool). p.1 ≡ true → HasFailed id p.0)
      (not present || has h.dev.flags device_dead) (λ _ _. inr (error-set_error id enomedium h))
      (λ _ e. absurd_bool e)

retry-HasFailed :
    (others : ℕ → Host → Host) (id : ℕ) (deferred : Option CmdRef) (timeout : ℕ) (p : Host × Bool)
    → (retry others (main_of id) deferred timeout p).1 ≡ false
    → HasFailed id (retry others (main_of id) deferred timeout p).0
unfolding retry
retry-HasFailed others id deferred timeout (h, true) e = absurd_sent e
retry-HasFailed others id deferred zero (h, false) e = inl (error-set_error id eio h)
retry-HasFailed others id deferred (suc timeout) (h, false) failed =
    let (present, d) = get_cd h.dev in
    let h1 = others timeout (record h { dev = d }) in
    let (h2, gone) = present_error (main_of id) present h1 in
    if_case (λ (q : Host × Bool). q.1 ≡ false → HasFailed id q.0)
      (same_ptr (some (main_of id)) deferred && not (same_ptr (some (main_of id)) h1.deferred_cmd))
      (λ _ e. absurd_sent e)
      (λ _.
        if_case (λ (q : Host × Bool). q.1 ≡ false → HasFailed id q.0) gone
          (λ left _. present_error-HasFailed id present h1 left)
          (λ _ e. retry-HasFailed others id deferred timeout (send_command h2 (main_of id)) e))
      failed

-- When sdhci_send_command_retry gives up the main command of a request, whatever other threads do
-- between its tries, the command has the error EIO or ENOMEDIUM.
pub send_command_retry-HasFailed :
    (others : ℕ → Host → Host) (id : ℕ) (h : Host)
    → (send_command_retry others (main_of id) h).1 ≡ false
    → HasFailed id (send_command_retry others (main_of id) h).0
unfolding send_command_retry
send_command_retry-HasFailed others id h =
    retry-HasFailed others id h.deferred_cmd 10 (send_command h (main_of id))
