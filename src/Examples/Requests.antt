-- ===== src/Examples/Requests.antt =====
-- The theorems on requests, at concrete hosts.
use linux_sdhci_rtt.Base.{ℕ, suc, ◌≡◌, refl, ◌+◌, true, false, some, arith, has, length}
use linux_sdhci_rtt.Host.{main_of, Host, command, data_line_cmd}
use linux_sdhci_rtt.Device.{readl}
use linux_sdhci_rtt.Send.{send_command}
use linux_sdhci_rtt.Send.Laws.{send_command-started, send_command-refused, started}
use linux_sdhci_rtt.Finish.{is_done, release_mrq}
use linux_sdhci_rtt.Finish.Laws.{release_mrq-done}
use linux_sdhci_rtt.Done.{complete_all, complete_work}
use linux_sdhci_rtt.Reset.{get_cd}
use linux_sdhci_rtt.Done.{send_command_retry}
use linux_sdhci_rtt.Done.Failure.{send_command_retry-HasFailed, HasFailed}
use linux_sdhci_rtt.Done.Laws.{complete_work-ends}
use linux_sdhci_rtt.Irq.Handler.{Service, IrqReturn, complete_ready, irq}
use linux_sdhci_rtt.Slots.{slots, refs}
use linux_sdhci_rtt.Slots.Safe.{IsSafe}
use linux_sdhci_rtt.Slots.Handler.{count, count_slots}
use linux_sdhci_rtt.Slots.Deferred.{Parted, complete_ready-Parted}
use linux_sdhci_rtt.Slots.Retry.{IsFair}
use linux_sdhci_rtt.Slots.Reachable.{
  Reachable, IsIdle, Reachable-IsSafe, idle, next, start_atomic, interrupt,
}
use linux_sdhci_rtt.Done.{request_atomic}
use linux_sdhci_rtt.Examples.{idle_host, busy_host, done_host, inhibited_host}

abbrev no_pio : ℕ → Host → Host
no_pio id h = h

abbrev no_others : ℕ → Host → Host
no_others n h = h

no_others-IsFair : IsFair no_others
no_others-IsFair = record { keeps = λ n h safe. safe; leaves = λ n id h e f. (e, f) }

idle_host-IsIdle : IsIdle idle_host
unfolding is_done
idle_host-IsIdle = record { quiet = λ id. refl; empty = λ id. refl; unique = tt }

-- Request 7 is started, and an interrupt follows.
after_interrupt : Reachable no_pio no_others (irq no_pio (request_atomic 7 idle_host).0).0
unfolding is_done
after_interrupt =
    next
      (next (idle idle_host-IsIdle)
        (start_atomic 7 idle_host (record { unknown = refl; undone = refl })))
      (interrupt (request_atomic 7 idle_host).0)

Reachable-IsSafe_example : IsSafe (slots (irq no_pio (request_atomic 7 idle_host).0).0)
Reachable-IsSafe_example =
    Reachable-IsSafe no_pio no_others (λ id h safe. safe) no_others-IsFair after_interrupt

release_mrq-done_example :
    (is_done 7 (release_mrq 7 busy_host).mrqs_done ≡ true)
    × (refs 7 (slots (release_mrq 7 busy_host)) ≡ false)
    × ((n : ℕ)
        → is_done n busy_host.mrqs_done ≡ true
        → is_done n (release_mrq 7 busy_host).mrqs_done ≡ true)
release_mrq-done_example = release_mrq-done 7 busy_host refl

complete_work-ends_example :
    ((k : ℕ)
      → complete_all (k + suc (length done_host.mrqs_done)) done_host ≡ complete_work done_host)
    × ((n : ℕ)
        → count_slots n (complete_work done_host).mrqs_done
            + count n (complete_work done_host).finished
          ≡ count_slots n done_host.mrqs_done + count n done_host.finished)
complete_work-ends_example = complete_work-ends done_host

-- The end of an interrupt that found the request 7 done.
abbrev served : Service
served = record { host = done_host; result = IrqReturn.irq_handled; unexpected = 0 }

complete_ready-Parted_example : Parted served 7 (complete_ready served)
complete_ready-Parted_example = complete_ready-Parted served 7

idle_host-sends : (send_command idle_host (main_of 7)).1 ≡ true
unfolding send_command has readl data_line_cmd
idle_host-sends = refl

send_command-started_example :
    (started (send_command idle_host (main_of 7)).0.dev.log
      ≡ some (command idle_host (main_of 7)).opcode)
    × ((send_command idle_host (main_of 7)).0.cmd ≡ some (main_of 7))
send_command-started_example =
    send_command-started idle_host (main_of 7) (omega arith) idle_host-sends

inhibited_host-refuses : (send_command inhibited_host (main_of 7)).1 ≡ false
unfolding send_command has readl data_line_cmd
inhibited_host-refuses = refl

send_command-refused_example :
    ((send_command inhibited_host (main_of 7)).0.dev.log ≡ inhibited_host.dev.log)
    × (slots (send_command inhibited_host (main_of 7)).0 ≡ slots inhibited_host)
send_command-refused_example =
    send_command-refused inhibited_host (main_of 7) inhibited_host-refuses

inhibited_host-gives_up : (send_command_retry no_others (main_of 7) inhibited_host).1 ≡ false
unfolding send_command_retry send_command has readl data_line_cmd get_cd
inhibited_host-gives_up = refl

send_command_retry-HasFailed_example :
    HasFailed 7 (send_command_retry no_others (main_of 7) inhibited_host).0
send_command_retry-HasFailed_example =
    send_command_retry-HasFailed no_others 7 inhibited_host inhibited_host-gives_up
