-- ===== src/Command.antt =====
-- sdhci.c: the automatic commands, sdhci_set_transfer_mode, and the value of the command register
-- that sdhci_send_command writes.
pub mod Laws
use linux_sdhci_rtt.Base.{
  ℕ, ◌/◌, bit_and, bit_or, Bool, true, false, not, ◌&&◌, ◌||◌, Option, none, some, ltb, leb, ◌==◌,
  is_some, if◌then◌else◌, has, clear, ◌<<<◌, ◌>>>◌,
}
use linux_sdhci_rtt.Regs.{
  auto_cmd12, auto_cmd23, req_use_dma, spec_410, trns_auto_sel, trns_auto_cmd12, trns_auto_cmd23,
  trns_blk_cnt_en, trns_multi, trns_read, trns_dma, transfer_mode, host_control2, cmd23_enable,
  dma_address, quirk2_clear_transfermode_reg_before_cmd, quirk2_support_single, cmd_resp_none,
  cmd_resp_long, cmd_resp_short, cmd_resp_short_busy, cmd_crc, cmd_index, cmd_data,
}
use linux_sdhci_rtt.Device.{Device, M, ◌>>=◌, ◌>>◌, ret, get, put, when, readw, writel, writew}
use linux_sdhci_rtt.Mmc.{
  Command, Data, Request, Opcodes, mmc_op_multi, mmc_rsp_present, mmc_rsp_136, mmc_rsp_crc,
  mmc_rsp_busy, mmc_rsp_opcode,
}

unfoldable pub uses_auto_cmd12 : ℕ → Request → Bool
uses_auto_cmd12 flags r = not (is_some r.sbc) && has flags auto_cmd12 && not r.cap_cmd_during_tfr

unfoldable pub uses_auto_cmd23 : ℕ → Request → Bool
uses_auto_cmd23 flags r = is_some r.sbc && has flags auto_cmd23

unfoldable pub manual_cmd23 : ℕ → Request → Bool
manual_cmd23 flags r = is_some r.sbc && not (has flags auto_cmd23)

-- sdhci_auto_cmd_select: the bits that it adds to `*mode`.
unfoldable pub auto_cmd_select : Opcodes → Request → ℕ → ℕ → M ℕ
unfolding uses_auto_cmd12 uses_auto_cmd23
auto_cmd_select ops r opcode mode = do
  d ← get
  let use_cmd12 = uses_auto_cmd12 d.flags r && not (opcode == ops.sd_io_rw_extended)
  let use_cmd23 = uses_auto_cmd23 d.flags r
  if leb spec_410 d.version && d.v4_mode && (use_cmd12 || use_cmd23)
      then (do
        ctrl2 ← readw host_control2
        writew (if use_cmd23 then bit_or ctrl2 cmd23_enable else clear 16 ctrl2 cmd23_enable)
            host_control2
        ret (bit_or mode trns_auto_sel))
      else ret (
          if use_cmd12
          then bit_or mode trns_auto_cmd12
          else if use_cmd23
          then bit_or mode trns_auto_cmd23
          else mode)

-- A command without data.
unfoldable pub clear_transfer_mode : Opcodes → ℕ → M (Unit {0})
clear_transfer_mode ops opcode = do
  d ← get
  if has d.quirks2 quirk2_clear_transfermode_reg_before_cmd
      then when (not (opcode == ops.send_tuning_block_hs200)) (writew 0 transfer_mode)
      else (do
        mode ← readw transfer_mode
        writew (clear 16 mode (bit_or trns_auto_cmd12 trns_auto_cmd23)) transfer_mode)

-- The argument of CMD23, which goes to SDHCI_ARGUMENT2, another name of the first register.
unfoldable pub write_argument2 : Option Command → M (Unit {0})
write_argument2 none = ret tt
write_argument2 (some c) = writel c.arg dma_address

unfoldable pub set_transfer_mode : Opcodes → Request → Command → Option Data → M (Unit {0})
unfolding clear_transfer_mode auto_cmd_select write_argument2 uses_auto_cmd23 mmc_op_multi
set_transfer_mode ops r c none = clear_transfer_mode ops c.opcode
set_transfer_mode ops r c (some x) = do
  d ← get
  let single = if has d.quirks2 quirk2_support_single then 0 else trns_blk_cnt_en
  mode ←
      if mmc_op_multi ops c.opcode || ltb 1 x.blocks
      then (do
        m ← auto_cmd_select ops r c.opcode (bit_or trns_blk_cnt_en trns_multi)
        when (uses_auto_cmd23 d.flags r) (write_argument2 r.sbc)
        ret m)
      else ret single
  let mode_read = if x.is_read then bit_or mode trns_read else mode
  writew (if has d.flags req_use_dma then bit_or mode_read trns_dma else mode_read) transfer_mode

-- SDHCI_MAKE_CMD and SDHCI_GET_CMD.
unfoldable pub make_cmd : ℕ → ℕ → ℕ
make_cmd c f = bit_or (bit_and c 0xff <<< 8) (bit_and f 0xff)

unfoldable pub get_cmd : ℕ → ℕ
get_cmd c = bit_and (c >>> 8) 0x3f

-- "136-bit response commands never have busy waiting": the flag is dropped.
unfoldable pub drop_busy : ℕ → ℕ
drop_busy flags =
    if has flags mmc_rsp_136 && has flags mmc_rsp_busy then clear 32 flags mmc_rsp_busy else flags

unfoldable pub resp_type : ℕ → ℕ
resp_type flags =
    if not (has flags mmc_rsp_present)
    then cmd_resp_none
    else if has flags mmc_rsp_136
    then cmd_resp_long
    else if has flags mmc_rsp_busy
    then cmd_resp_short_busy
    else cmd_resp_short

-- The low byte of the command register.
unfoldable pub cmd_flags : Opcodes → ℕ → ℕ → Bool → ℕ
unfolding resp_type
cmd_flags ops flags opcode has_data =
    let f0 = resp_type flags in
    let f1 = if has flags mmc_rsp_crc then bit_or f0 cmd_crc else f0 in
    let f2 = if has flags mmc_rsp_opcode then bit_or f1 cmd_index else f1 in
    if has_data || opcode == ops.send_tuning_block || opcode == ops.send_tuning_block_hs200
    then bit_or f2 cmd_data
    else f2
