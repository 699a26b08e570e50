-- ===== src/Send.antt =====
-- sdhci.c: sdhci_mod_timer, sdhci_initialize_data, sdhci_prepare_data and sdhci_send_command.
-- External DMA is not built. WARN_ON only prints. BUG_ON sets `bug`, where the code stops.
pub mod Laws
use linux_sdhci_rtt.Base.{
  ℕ, ◌+◌, ◌*◌, ◌/◌, bit_or, Bool, true, false, not, ◌&&◌, ◌||◌, Option, none, some, List, [], ◌∷◌,
  ltb, leb, ◌==◌, if◌then◌else◌, is_some, has, clear, u32,
}
use linux_sdhci_rtt.Regs.{
  use_adma, req_use_dma, quirk2_stop_with_tc, cmd_inhibit, data_inhibit, present_state, argument,
  command as command_reg,
}
use linux_sdhci_rtt.Device.{Device, M, ◌>>=◌, ◌>>◌, ret, get, put, readl, writel, writew}
use linux_sdhci_rtt.Mmc.{Command, Data, Request, Cookie, SgEntry, Errno, mmc_rsp_busy}
use linux_sdhci_rtt.Timeout.{set_timeout, set_transfer_irqs}
use linux_sdhci_rtt.Dma.{
  dma_flags, pre_dma_transfer, set_adma_addr, set_sdma_addr, config_dma, set_block_info,
}
use linux_sdhci_rtt.Command.{set_transfer_mode, drop_busy, cmd_flags, make_cmd}
use linux_sdhci_rtt.Host.{
  Host, CmdRef, Role, same_role, on_dev, update_mrq, update_cmd, on_data, command, cmd_data,
  data_line_cmd, set_error,
}

-- nsecs_to_jiffies of port/l-timer.c is not written yet: it returns 0.
unfoldable pub nsecs_to_jiffies : ℕ → ℕ
nsecs_to_jiffies n = 0

unfoldable pub mod_timer : ℕ → ℕ → Host → Host
mod_timer id timeout h =
    if data_line_cmd h (record { mrq = id; role = Role.main })
    then record h { data_timer = some timeout }
    else record h { timer = some timeout }

-- The sanity checks of sdhci_initialize_data: whether one of its three BUG_ONs fires.
unfoldable pub is_insane : ℕ → Data → Bool
is_insane max_blk_size x =
    ltb 524288 (u32 (x.blksz * x.blocks)) || ltb max_blk_size x.blksz || ltb 65535 x.blocks

abbrev pub restart_data : Data → Data
restart_data x = record x { bytes_xfered = 0 }

unfoldable pub initialize_data : ℕ → Data → Host → Host
unfolding is_insane
initialize_data id x h =
    update_mrq id (on_data restart_data) (record h {
      payload = some id;
      data_early = false;
      bug = h.bug || is_insane h.max_blk_size x;
    })

abbrev pub first_address : List SgEntry → ℕ
first_address [] = 0
first_address (sg ∷ sgs) = sg.dma_address

-- sdhci_sdma_address.
unfoldable pub sdma_address : Host → Data → ℕ
sdma_address h x = elim h.bounce_buffer [ some size ↦ h.bounce_addr | none ↦ first_address x.sg ]

abbrev pub set_flags : ℕ → Host → Host
set_flags flags h = record h { dev = record (h.dev) { flags = flags } }

-- The mapping of the data for DMA, and the address that the controller is given. The descriptor
-- table itself is in the model of the DMA tables.
unfoldable pub map_dma : ℕ → Data × Option ℕ → Host → Host
unfolding sdma_address
map_dma id (x, none) h = set_flags (clear 32 h.dev.flags req_use_dma) h
map_dma id (x, some n) h =
    let g =
      update_mrq id (on_data (λ y. record y { sg_count = x.sg_count; host_cookie = x.host_cookie }))
        h in
    on_dev
      (if has h.dev.flags use_adma
        then set_adma_addr h.adma_addr
        else set_sdma_addr (sdma_address h x))
      g

unfoldable pub start_dma : ℕ → Data → Host → Host
unfolding map_dma
start_dma id x h =
    if has h.dev.flags req_use_dma
    then map_dma id (pre_dma_transfer h.bounce_buffer x Cookie.mapped) h
    else h

-- PIO: the blocks to go.
abbrev pub start_pio : Data → Host → Host
start_pio x h = if has h.dev.flags req_use_dma then h else record h { blocks = x.blocks }

unfoldable pub prepare_data : ℕ → Data → Host → Host
unfolding initialize_data start_dma
prepare_data id x h =
    let h1 = initialize_data id x h in
    let h2 = set_flags (dma_flags h1.dev.flags h1.dev.quirks x.sg) h1 in
    let h3 = on_dev config_dma (start_dma id x h2) in
    on_dev (do set_transfer_irqs; set_block_info x) (start_pio x h3)

-- "Initially, a command has no error"; CMD12 may signal busy.
unfoldable pub fresh_command : Bool → ℕ → Command → Command
fresh_command stop_with_tc stop_opcode c = record c {
  error = none;
  flags = if stop_with_tc && c.opcode == stop_opcode then bit_or c.flags mmc_rsp_busy else c.flags;
}

-- The inhibit bits that must be clear; stop commands do not wait for the data line.
unfoldable pub inhibit_mask : Host → CmdRef → ℕ
inhibit_mask h c =
    if data_line_cmd h c && not (same_role c.role Role.stop)
    then bit_or cmd_inhibit data_inhibit
    else cmd_inhibit

unfoldable pub claim : CmdRef → Host → Host
claim c h =
    let h1 = record h { cmd = some c; dev = record (h.dev) { data_timeout = 0 } } in
    if data_line_cmd h1 c
    then on_dev (set_timeout (command h1 c) (cmd_data h1 c)) (record h1 { data_cmd = some c })
    else h1

unfoldable pub prepare : CmdRef → Option Data → Host → Host
unfolding prepare_data
prepare c none h = h
prepare c (some x) h = prepare_data c.mrq x h

-- The timer of the request, in ticks.
unfoldable pub expiry : Host → CmdRef → ℕ
unfolding nsecs_to_jiffies
expiry h c =
    let k = command h c in
    let now = h.dev.jiffies h.dev.accesses in
    if not (h.dev.data_timeout == 0)
    then now + nsecs_to_jiffies h.dev.data_timeout
    else if not (is_some (cmd_data h c)) && ltb 9000 k.busy_timeout
    then now + (u32 (k.busy_timeout + 999) / 1000 * h.dev.hz + h.dev.hz)
    else now + 10 * h.dev.hz

unfoldable pub write_command : CmdRef → Host → Host
write_command c h =
    let k = command h c in
    on_dev
      (writew (make_cmd k.opcode (cmd_flags h.opcodes k.flags k.opcode (is_some (cmd_data h c))))
        command_reg)
      h

-- The registers of the command, all but the command register itself, with the data prepared.
unfoldable pub program : CmdRef → Host → Host
unfolding claim prepare
program c h =
    let h1 = claim c h in
    let h2 = prepare c (cmd_data h1 c) h1 in
    let k = command h2 c in
    let h3 =
      on_dev
        (do writel k.arg argument; set_transfer_mode h2.opcodes (h2.store c.mrq) k (cmd_data h2 c))
        h2 in
    update_cmd c (λ x. record x { flags = drop_busy x.flags }) h3

-- All that follows the test of the inhibit bits.
unfoldable pub issue : CmdRef → Host → Host
unfolding program mod_timer write_command expiry
issue c h = let g = program c h in write_command c (mod_timer c.mrq (expiry g c) g)

-- The command at its start, and after PRESENT_STATE was read.
unfoldable pub restarted : Host → CmdRef → Host
unfolding fresh_command
restarted h c =
    update_cmd c (fresh_command (has h.dev.quirks2 quirk2_stop_with_tc) h.opcodes.stop_transmission)
      h

unfoldable pub tried : Host → CmdRef → Host
unfolding restarted
tried h c = let g = restarted h c in record g { dev = (readl present_state g.dev).1 }

unfoldable pub is_busy : Host → CmdRef → Bool
unfolding restarted inhibit_mask
is_busy h c = let g = restarted h c in has (readl present_state g.dev).0 (inhibit_mask g c)

unfoldable pub send_command : Host → CmdRef → Host × Bool
unfolding tried is_busy issue
send_command h c = if is_busy h c then (tried h c, false) else (issue c (tried h c), true)
