-- ===== src/Mmc.antt =====
-- port/osdep/mmc/mmc.h: commands, data and requests. RT-Thread declares the structures; the names
-- are those that the driver uses for them, but for `data`, which is `payload` here. A command is
-- part of its request, as `sbc`, `cmd` or `stop`, and the data belongs to the command `cmd`, as
-- RT-Thread's core sets the pointers up.
use linux_sdhci_rtt.Base.{ℕ, Bool, ◌||◌, Option, List, ◌==◌}

-- Errors of a command or of data. No error is `none`.
pub data Errno : Type 0 where
  eio etimedout eilseq enomedium : Errno

pub record Resp : Type 0 where
  pub w0 : ℕ
  pub w1 : ℕ
  pub w2 : ℕ
  pub w3 : ℕ

pub record Command : Type 0 where
  pub opcode : ℕ
  pub arg : ℕ
  pub flags : ℕ
  pub busy_timeout : ℕ
  pub error : Option Errno
  pub resp : Resp

-- `enum sdhci_cookie`.
pub data Cookie : Type 0 where
  unmapped pre_mapped mapped : Cookie

-- An entry of the scatter list: the offset in its page, its length, and the DMA address that
-- dma_map_sg gives it.
pub record SgEntry : Type 0 where
  pub offset : ℕ
  pub length : ℕ
  pub dma_address : ℕ

-- `is_read` is the flag MMC_DATA_READ; `stop` the command CMD12 for the data, if there is one.
pub record Data : Type 0 where
  pub blksz : ℕ
  pub blocks : ℕ
  pub is_read : Bool
  pub timeout_ns : ℕ
  pub timeout_clks : ℕ
  pub error : Option Errno
  pub bytes_xfered : ℕ
  pub host_cookie : Cookie
  pub sg : List SgEntry
  pub sg_count : ℕ
  pub stop : Option Command

pub record Request : Type 0 where
  pub sbc : Option Command
  pub cmd : Command
  pub payload : Option Data
  pub cap_cmd_during_tfr : Bool

-- Response flags.
abbrev pub mmc_rsp_present : ℕ
mmc_rsp_present = 0x10000

abbrev pub mmc_rsp_136 : ℕ
mmc_rsp_136 = 0x20000

abbrev pub mmc_rsp_crc : ℕ
mmc_rsp_crc = 0x40000

abbrev pub mmc_rsp_busy : ℕ
mmc_rsp_busy = 0x80000

abbrev pub mmc_rsp_opcode : ℕ
mmc_rsp_opcode = 0x100000

-- The command numbers of RT-Thread's headers that the driver tells apart.
pub record Opcodes : Type 0 where
  pub stop_transmission : ℕ
  pub send_tuning_block : ℕ
  pub send_tuning_block_hs200 : ℕ
  pub write_multiple_block : ℕ
  pub read_multiple_block : ℕ
  pub sd_io_rw_extended : ℕ

abbrev pub mmc_bus_test_r : ℕ
mmc_bus_test_r = 14

unfoldable pub mmc_op_multi : Opcodes → ℕ → Bool
mmc_op_multi ops opcode = opcode == ops.write_multiple_block || opcode == ops.read_multiple_block
