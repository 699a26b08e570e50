-- ===== src/Lib.antt =====
-- A model of the SDHCI driver: sdhci.c and sdhci.h, which drive an SD host controller, the platform
-- CV181x (platform/cvitek), and the time functions of the RT-Thread port (port/l-timer.c, port/osdep).
--
-- How the parts work together. RT-Thread's core starts a request (sdhci_request). It is a command,
-- perhaps with data, a CMD23 before it and a CMD12 behind it. sdhci_send_command writes the
-- controller's registers, and prepares DMA and a timer for the data. The controller answers by
-- interrupts: sdhci_irq reads responses, ends commands and data, and puts requests that are over
-- into the slots of `mrqs_done`, which the interrupt itself, its thread or the work queue complete.
-- Timers end what the controller does not answer. Beside the requests the driver sets the clock, the
-- power and the reset of the controller.
--
-- Files and code.
--   Base (Tests, Lists, Bits, Fields): helpers; words of a width, and what `|`, `&` and shifts do.
--   Regs (Offsets, Control, Interrupts, Quirks, Attributes): the constants of sdhci.h.
--   Device: the register part of `struct sdhci_host`, the accessors sdhci_readl to sdhci_writeb, and
--     the time functions of port/l-timer.c. A register operation is a function of the device, `M A`.
--   Device/Poll: the polling loops of sdhci_reset and sdhci_enable_clk.
--   Clock (Divider, Encoding, Laws, Best, Powers, Enable): sdhci_get_preset_value, sdhci_calc_clk,
--     sdhci_enable_clk, sdhci_set_clock.
--   Adma (Shape, Fetch, Transfer, Restore): sdhci_adma_write_desc, sdhci_adma_mark_end, sdhci_adma_table_pre,
--     sdhci_adma_table_post; Fetch is the controller that follows the table.
--   Mmc: commands, data and requests, as RT-Thread declares them; port/osdep/mmc/mmc.h.
--   Response: sdhci_read_rsp_136.
--   Timeout: sdhci_target_timeout, sdhci_calc_sw_timeout, sdhci_calc_timeout,
--     sdhci_set_data_timeout_irq, sdhci_set_transfer_irqs, __sdhci_set_timeout.
--   Reset: sdhci_get_cd, sdhci_do_enable_v4_mode, sdhci_enable_v4_mode, sdhci_set_card_detection,
--     sdhci_runtime_pm_bus_on and _off, sdhci_reset, sdhci_do_reset, sdhci_set_default_irqs,
--     sdhci_init, __sdhci_led_activate and _deactivate.
--   Power (Mode): the modes of port/osdep/mmc/mmc.h, sdhci_set_power_reg, sdhci_set_power_noreg,
--     sdhci_set_power, sdhci_set_power_and_bus_voltage.
--   Card (Laws): sdhci_set_bus_width, sdhci_set_uhs_signaling, sdhci_check_ro, sdhci_get_ro.
--   Dma: sdhci_config_dma, sdhci_set_adma_addr, sdhci_set_sdma_addr, sdhci_set_block_info,
--     sdhci_pre_dma_transfer, and the choice of DMA in sdhci_prepare_data.
--   Command: sdhci_auto_cmd12, sdhci_auto_cmd23, sdhci_manual_cmd23, sdhci_auto_cmd_select,
--     sdhci_set_transfer_mode, SDHCI_MAKE_CMD, SDHCI_GET_CMD.
--   Host: `struct sdhci_host` as a whole. A request is a number that `store` looks up, so that two
--     pointers to one request see the same stores.
--   Send: sdhci_mod_timer, sdhci_initialize_data, sdhci_prepare_data, sdhci_send_command.
--   Finish: sdhci_needs_reset, sdhci_set_mrq_done, __sdhci_finish_mrq, __sdhci_finish_data,
--     sdhci_finish_command.
--   Irq, Irq/Handler: sdhci_cmd_irq, sdhci_data_irq, sdhci_defer_done, sdhci_irq.
--   Done: sdhci_request_done, sdhci_complete_work, the timers, sdhci_error_out_mrqs,
--     sdhci_card_event, sdhci_present_error, sdhci_send_command_retry, sdhci_request,
--     sdhci_request_atomic, sdhci_thread_irq.
--   The modules Laws, Best, Powers, Failure and the like hold the theorems on the code of their parent.
--   Slots (Safe, Refine, Finish, Irq, Done, Handler, Deferred, Retry, Reachable): the tracker of requests that
--     these operations keep, what each does to it, and the step relation of the driver: new requests,
--     interrupts, their thread, the timers, the completing work and the removal of the card. The tuning
--     commands of sdhci_send_tuning, which use the pointers of the host as well, are no step.
--   Cvitek: platform/cvitek/sdhci-cv181x.c, the masks of its tuning, its speed modes, descriptors and resets
--     (Mask, Boundary, Delay); Cvitek/Window (Median, LeadLags): the searches over the results;
--     Cvitek/Tuning (Marks): sdhci_cv181x_general_execute_tuning; Cvitek/Pads (Quiet, Steady, Supply): the
--     pads and the power switch; Cvitek/Emmc (Laws): the functions of the eMMC host that sdhci_set_ios calls.
--   Pio: sdhci_read_block_pio, sdhci_write_block_pio, sdhci_transfer_pio; Pio/Words and Pio/Pack: the bytes
--     of a word and the loop that collects them; Pio/Unpack: the loop that takes a word apart; Pio/Handed: the
--     pieces that the iterator hands out for a block; Pio/Block and Pio/Fifo: blocks that are written
--     and read; Pio/Stub: the iterator of port/l-sg.c.
--   Ios (Laws, Clocks, Ends, Asked, Voltage): sdhci_reinit, sdhci_enable_preset_value, sdhci_set_ios,
--     sdhci_start_signal_voltage_switch, sdhci_card_busy, sdhci_prepare_hs400_tuning.
--   Tune (Laws, Whole): sdhci_start_tuning, sdhci_end_tuning, sdhci_reset_tuning,
--     sdhci_abort_tuning, sdhci_send_tuning, __sdhci_execute_tuning, sdhci_execute_tuning.
--   Pm (Laws, Suspend): sdhci_init with its call of sdhci_set_ios, sdhci_enable_irq_wakeups,
--     sdhci_disable_irq_wakeups, sdhci_suspend_host, sdhci_resume_host, sdhci_runtime_suspend_host,
--     sdhci_runtime_resume_host. Cqe: sdhci_cqe_enable, sdhci_cqe_disable, sdhci_cqe_irq.
--   Setup (Laws, Sizes): __sdhci_read_caps, and the parts of sdhci_setup_host for DMA, clocks,
--     time-outs, automatic commands, tuning, currents and the sizes of transfers.
--   Device/Quiet, Device/Keeps, Reset/Quiet, Reset/Keeps: programs that leave a register or a field as it is.
--   Examples (Registers, Tables, Requests, Platform, Transfers, Modes, Sleep): concrete controllers and hosts.
--
-- Bounds and fuel. A register is a number below 2 ^ 32, written with the remainder that the C type
-- takes. The searches for a divider take as many rounds as there are dividers (1024, 1022, 9). A
-- polling loop follows `rounds` reads of the register; a deadline that passes earlier ends it. The
-- interrupt handler goes round 16 times, as the code does, and sdhci_complete_work once for each
-- slot and once more. The loop over the pieces of a block follows the rounds that it is given, and
-- the iterator decides whether it ends: it does after one round for each byte and each empty piece,
-- and one more; the loop of the tuning has the rounds of `tuning_loop_count`.
--
-- Parameters. `hw` is what the controller answers to a read and `jiffies` the clock, both arbitrary
-- functions of the number of accesses so far. `pio` is the transfer of PIO blocks, `others` what
-- other threads and interrupts do between two tries of sdhci_send_command_retry. The other windows
-- without the lock have no such parameter: sdhci_complete_work and the thread, which drop it between
-- two requests and to unmap their data, and mmc_request_done are one step each. `wait` is what the
-- interrupts do while sdhci_send_tuning waits for the data. Ops is `struct sdhci_ops`, as far as
-- sdhci_set_ios and the voltage switch call it, and Miter the iterator over a scatter list. System
-- and Hooks are what the power management and the card answer to suspend and resume; Board and
-- ClockOps what the device tree and the platform give to the set-up.
--
-- `send` is mmc_send_tuning, and tells 0 for success.
--
-- Not modelled: the rest of the set-up of hosts (sdhci_add_host and the capability bits of the
-- core), external DMA, register dumps, the LED class and bounce-buffer copies, sdhci_cvi_probe and
-- the device-tree files, and the glue to RT-Thread's core (port/l-mmc.c).
pub mod Base
pub mod Regs
pub mod Device
pub mod Clock
pub mod Adma
pub mod Mmc
pub mod Pio
pub mod Response
pub mod Timeout
pub mod Reset
pub mod Power
pub mod Card
pub mod Dma
pub mod Command
pub mod Cvitek
pub mod Host
pub mod Send
pub mod Finish
pub mod Ios
pub mod Irq
pub mod Done
pub mod Tune
pub mod Slots
pub mod Examples
pub mod Cqe
pub mod Pm
pub mod Setup
