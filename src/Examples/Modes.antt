-- ===== src/Examples/Modes.antt =====
-- The theorems on set_ios, the voltage switch and the tuning, at concrete hosts.
use linux_sdhci_rtt.Base.{
  ℕ, zero, suc, ◌≤◌, ◌≡◌, refl, true, false, none, arith, has, ◌==◌, if◌then◌else◌,
}
use linux_sdhci_rtt.Regs.{
  ctrl_exec_tuning, ctrl_tuned_clk, signaling_180, signaling_330, host_control2,
}
use linux_sdhci_rtt.Device.{Device, Timing, readw, readl, writew, writel}
use linux_sdhci_rtt.Power.{Vdd}
use linux_sdhci_rtt.Power.Mode.{PowerMode}
use linux_sdhci_rtt.Card.{Lines}
use linux_sdhci_rtt.Host.{Host, data_line_cmd}
use linux_sdhci_rtt.Done.{send_command_retry}
use linux_sdhci_rtt.Finish.{del_timer}
use linux_sdhci_rtt.Command.{drop_busy, set_transfer_mode}
use linux_sdhci_rtt.Ios.{Ios, voltage_180, voltage_330, start_signal_voltage_switch}
use linux_sdhci_rtt.Ios.Clocks.{Ends}
use linux_sdhci_rtt.Cvitek.Emmc.{emmc_ops}
use linux_sdhci_rtt.Ios.Voltage.{Answers, start_signal_voltage_switch-Answers}
use linux_sdhci_rtt.Tune.{
  Tuner, failed, send_tuning, program_tuning, tuning_request, await_tuning, tuning_loop, success,
}
use linux_sdhci_rtt.Tune.Laws.{Outcome, rounds, tuning_loop-Outcome, tuning_loop_succeeds}
use linux_sdhci_rtt.Examples.{device, idle_host}

abbrev pub fast : Ios
fast = record {
  clock = 200000000;
  power_mode = PowerMode.power_on;
  vdd = Vdd.vdd_32_33;
  bus_width = Lines.four;
  timing = Timing.uhs_sdr104;
  drv_type = 1;
  signal_voltage = voltage_180;
}

abbrev dual : Device
dual = record device { flags = 0x300 }

start_signal_voltage_switch-Answers_example :
    Answers true signaling_180 dual
      (start_signal_voltage_switch (emmc_ops true) voltage_180 dual).0
      (start_signal_voltage_switch (emmc_ops true) voltage_180 dual).1
    × Answers false signaling_330 dual
        (start_signal_voltage_switch (emmc_ops true) voltage_330 dual).0
        (start_signal_voltage_switch (emmc_ops true) voltage_330 dual).1
unfolding emmc_ops
start_signal_voltage_switch-Answers_example =
    start_signal_voltage_switch-Answers (emmc_ops true) (λ d. refl) dual (omega arith)

abbrev no_others : ℕ → Host → Host
no_others n h = h

abbrev data_comes : Host → Host
data_comes h = record h { tuning_done = true }

-- The controller selects its clock at once.
abbrev tunable : Host
tunable = record idle_host {
  dev = record device { hw = λ n reg. if reg == host_control2 then 0x80 else 0 };
}

tuning_loop-Outcome_example :
    Outcome
      (tuning_loop no_others data_comes false 7 19 40 tunable).0
      (tuning_loop no_others data_comes false 7 19 40 tunable).1
tuning_loop-Outcome_example = tuning_loop-Outcome no_others data_comes false 7 19 40 tunable

-- The first command is sent and answered.
abbrev first : Host
first = send_tuning no_others data_comes false 7 19 tunable

first_done : first.tuning_done ≡ true
unfolding has readw send_tuning send_command_retry readl program_tuning writew data_line_cmd
    tuning_request await_tuning del_timer drop_busy set_transfer_mode writel
first_done = refl

first_tuned :
    (has (readw host_control2 first.dev).0 ctrl_exec_tuning ≡ false)
    × (has (readw host_control2 first.dev).0 ctrl_tuned_clk ≡ true)
unfolding has readw send_tuning send_command_retry readl program_tuning writew data_line_cmd
    tuning_request await_tuning del_timer drop_busy set_transfer_mode writel
first_tuned = (refl, refl)

tuning_loop_succeeds_example : (tuning_loop no_others data_comes false 7 19 40 tunable).0 ≡ success
tuning_loop_succeeds_example =
    tuning_loop_succeeds no_others data_comes false 7 19 0 40 tunable (omega arith) done
      (λ j below. absurd (omega arith)) first_tuned.0 first_tuned.1
  where
    done :
        (j : ℕ)
        → j ≤ 0
        → (send_tuning no_others data_comes false 7 19
            (rounds no_others data_comes false 7 19 j tunable)).tuning_done
          ≡ true
    done zero le = first_done
    done (suc j) le = absurd (omega arith)

-- A card in SDR104, with a controller that ends the tuning without its clock.
abbrev untuned : Tuner
untuned = record {
  host = record idle_host { dev = record device { timing = Timing.uhs_sdr104; flags = 0x2000 } };
  tuning_count = 0;
  tuning_delay = none;
  tuning_loop_count = 40;
  tuning_err = failed;
  retune_period = 0;
}
