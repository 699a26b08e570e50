-- ===== src/Tune.antt =====
-- sdhci.c: sdhci_start_tuning, sdhci_end_tuning, sdhci_reset_tuning, sdhci_abort_tuning,
-- sdhci_send_tuning, __sdhci_execute_tuning and sdhci_execute_tuning. The request on the stack of
-- sdhci_send_tuning is one of the store, `id`. `others` is what happens while
-- sdhci_send_command_retry does not hold the lock, `wait` what the interrupts do while
-- wait_event_timeout waits. mmc_abort_tuning of the port does nothing.
pub mod Laws
pub mod Whole
use linux_sdhci_rtt.Base.{
  ℕ, zero, suc, ◌+◌, bit_or, Bool, true, false, not, ◌&&◌, ◌||◌, Option, none, some, ◌==◌,
  if◌then◌else◌, has, clear,
}
use linux_sdhci_rtt.Regs.{
  host_control2, int_enable, signal_enable, block_size, transfer_mode, trns_read, ctrl_exec_tuning,
  ctrl_tuned_clk, int_data_avail, quirk2_tuning_work_around, reset_cmd, reset_data, hs400_tuning,
  sdr50_needs_tuning, tuning_mode_1,
}
use linux_sdhci_rtt.Device.{Device, Timing, M, ◌>>=◌, ◌>>◌, ret, get, put, readw, writel, writew}
use linux_sdhci_rtt.Dma.{make_blksz}
use linux_sdhci_rtt.Reset.{do_reset}
use linux_sdhci_rtt.Mmc.{Command, Request, mmc_rsp_present, mmc_rsp_crc, mmc_rsp_opcode}
use linux_sdhci_rtt.Host.{Host, CmdRef, main_of, on_dev, update_mrq}
use linux_sdhci_rtt.Finish.{del_timer}
use linux_sdhci_rtt.Done.{send_command_retry}

unfoldable pub start_tuning : M (Unit {0})
start_tuning = do
  ctrl ← readw host_control2
  d ← get
  let exec = bit_or ctrl ctrl_exec_tuning
  writew (if has d.quirks2 quirk2_tuning_work_around then bit_or exec ctrl_tuned_clk else exec)
      host_control2
  writel int_data_avail int_enable
  writel int_data_avail signal_enable

unfoldable pub end_tuning : M (Unit {0})
end_tuning = do d ← get; writel d.ier int_enable; writel d.ier signal_enable

unfoldable pub reset_tuning : M (Unit {0})
reset_tuning = do
  ctrl ← readw host_control2
  writew (clear 16 (clear 16 ctrl ctrl_tuned_clk) ctrl_exec_tuning) host_control2

unfoldable pub abort_tuning : M (Unit {0})
abort_tuning = do reset_tuning; do_reset reset_cmd; do_reset reset_data; end_tuning

-- MMC_CMD_ADTC is a bit of RT-Thread's, which the driver does not look at.
unfoldable pub tuning_request : ℕ → Request
tuning_request opcode = record {
  sbc = none;
  cmd = record {
    opcode = opcode;
    arg = 0;
    flags = bit_or mmc_rsp_present (bit_or mmc_rsp_crc mmc_rsp_opcode);
    busy_timeout = 0;
    error = none;
    resp = record { w0 = 0; w1 = 0; w2 = 0; w3 = 0 };
  };
  payload = none;
  cap_cmd_during_tfr = false;
}

-- The block size register and the transfer mode for the tuning block; `wide` says that the bus has 8 bits.
unfoldable pub program_tuning : Bool → ℕ → ℕ → M (Unit {0})
program_tuning wide hs200 opcode = do
  d ← get
  writew (make_blksz d.sdma_boundary (if opcode == hs200 && wide then 128 else 64)) block_size
  writew trns_read transfer_mode

-- What __sdhci_execute_tuning returns: 0, -ETIMEDOUT or -EAGAIN.
pub data TuningErr : Type 0 where
  success timed_out failed : TuningErr

module _ (others : ℕ → Host → Host) (wait : Host → Host) (wide : Bool) (id opcode : ℕ) where
  -- The command is out: it is not waited for, only the interrupt for its data.
  unfoldable pub await_tuning : Host → Host
  await_tuning h = wait (record (del_timer id (record h { cmd = none })) { tuning_done = false })

  unfoldable pub send_tuning : Host → Host
  send_tuning h =
      let h1 = update_mrq id (λ r. tuning_request opcode) h in
      let h2 = on_dev (program_tuning wide h.opcodes.send_tuning_block_hs200 opcode) h1 in
      let (h3, sent) = send_command_retry others (main_of id) h2 in
      if sent then await_tuning h3 else record h3 { tuning_done = false }

  -- `for (i = 0; i < host->tuning_loop_count; i++)`, `n` rounds.
  unfoldable pub tuning_loop : ℕ → Host → TuningErr × Host
  tuning_loop zero h = (failed, on_dev reset_tuning h)
  tuning_loop (suc n) h =
      let h1 = send_tuning h in
      let (ctrl, d) = readw host_control2 h1.dev in
      let h2 = record h1 { dev = d } in
      elim h1.tuning_done [
        | false ↦ (timed_out, on_dev abort_tuning h1)
        | true ↦ elim (has ctrl ctrl_exec_tuning) [
          | true ↦ tuning_loop n h2
          | false ↦ elim (has ctrl ctrl_tuned_clk) [
            | true ↦ (success, h2)
            | false ↦ (failed, on_dev reset_tuning h2)
          ]
        ]
      ]

-- The fields of the host that only the tuning reads and writes. `tuning_delay` is -1 at first, `none`.
pub record Tuner : Type 0 where
  pub host : Host
  pub tuning_count : ℕ
  pub tuning_delay : Option ℕ
  pub tuning_loop_count : ℕ
  pub tuning_err : TuningErr
  pub retune_period : ℕ

-- What sdhci_execute_tuning returns: 0, -EINVAL, or what the platform's function does.
pub data TuneReturn : Type 0 where
  tune_ok tune_einval : TuneReturn
  tune_platform : ℕ → TuneReturn

-- The `switch` over the timing.
pub data Need : Type 0 where
  refused not_needed needed : Need

unfoldable pub tuning_need : ℕ → Timing → Need
tuning_need flags Timing.mmc_hs400 = refused
tuning_need flags Timing.mmc_hs200 = needed
tuning_need flags Timing.uhs_sdr104 = needed
tuning_need flags Timing.uhs_ddr50 = needed
tuning_need flags Timing.uhs_sdr50 = if has flags sdr50_needs_tuning then needed else not_needed
tuning_need flags _ = not_needed

abbrev pub is_hs200 : Timing → Bool
is_hs200 Timing.mmc_hs200 = true
is_hs200 _ = false

-- `tuning_count`: none for HS400, whose tuning is done in HS200.
unfoldable pub retune_count : Tuner → ℕ
retune_count t =
    let d = t.host.dev in
    if is_hs200 d.timing && has d.flags hs400_tuning
    then 0
    else if d.tuning_mode == tuning_mode_1
    then t.tuning_count
    else 0

abbrev pub on_host : (Host → Host) → Tuner → Tuner
on_host f t = record t { host = f t.host }

-- `if (host->tuning_delay < 0) host->tuning_delay = opcode == MMC_SEND_TUNING_BLOCK;`
abbrev pub delay_or : Bool → Option ℕ → ℕ
delay_or is_block (some ms) = ms
delay_or true none = 1
delay_or false none = 0

-- `host->flags &= ~SDHCI_HS400_TUNING`.
unfoldable pub leave_hs400 : Host → Host
leave_hs400 = on_dev (do d ← get; put (record d { flags = clear 32 d.flags hs400_tuning }))

module _ (others : ℕ → Host → Host) (wait : Host → Host) (wide : Bool) (id opcode : ℕ) where
  unfoldable pub own_tuning : Tuner → Tuner
  own_tuning t =
      let (err, h) =
        tuning_loop others wait wide id opcode t.tuning_loop_count (on_dev start_tuning t.host) in
      record t {
        host = on_dev end_tuning h;
        tuning_delay = some (delay_or (opcode == t.host.opcodes.send_tuning_block) t.tuning_delay);
        tuning_err = err;
        retune_period = retune_count t;
      }

  -- `platform` is `ops->platform_execute_tuning`.
  unfoldable pub run_tuning : Option (Host → ℕ × Host) → Tuner → TuneReturn × Tuner
  run_tuning none t = (tune_ok, own_tuning t)
  run_tuning (some platform) t =
      let (err, h) = platform t.host in (tune_platform err, record t { host = h })

  unfoldable pub as_needed : Option (Host → ℕ × Host) → Need → Tuner → TuneReturn × Tuner
  as_needed platform refused t = (tune_einval, t)
  as_needed platform not_needed t = (tune_ok, t)
  as_needed platform needed t = run_tuning platform t

  unfoldable pub execute_tuning : Option (Host → ℕ × Host) → Tuner → TuneReturn × Tuner
  execute_tuning platform t =
      let (err, t1) = as_needed platform (tuning_need t.host.dev.flags t.host.dev.timing) t in
      (err, on_host leave_hs400 t1)
