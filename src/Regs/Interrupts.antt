-- ===== src/Regs/Interrupts.antt =====
-- sdhci.h: the bits of the interrupt registers.
use linux_sdhci_rtt.Base.{ℕ}

abbrev pub int_response : ℕ
int_response = 0x00000001

abbrev pub int_data_end : ℕ
int_data_end = 0x00000002

abbrev pub int_blk_gap : ℕ
int_blk_gap = 0x00000004

abbrev pub int_dma_end : ℕ
int_dma_end = 0x00000008

abbrev pub int_space_avail : ℕ
int_space_avail = 0x00000010

abbrev pub int_data_avail : ℕ
int_data_avail = 0x00000020

abbrev pub int_card_insert : ℕ
int_card_insert = 0x00000040

abbrev pub int_card_remove : ℕ
int_card_remove = 0x00000080

abbrev pub int_card_int : ℕ
int_card_int = 0x00000100

abbrev pub int_retune : ℕ
int_retune = 0x00001000

abbrev pub int_cqe : ℕ
int_cqe = 0x00004000

abbrev pub int_error : ℕ
int_error = 0x00008000

abbrev pub int_timeout : ℕ
int_timeout = 0x00010000

abbrev pub int_crc : ℕ
int_crc = 0x00020000

abbrev pub int_end_bit : ℕ
int_end_bit = 0x00040000

abbrev pub int_index : ℕ
int_index = 0x00080000

abbrev pub int_data_timeout : ℕ
int_data_timeout = 0x00100000

abbrev pub int_data_crc : ℕ
int_data_crc = 0x00200000

abbrev pub int_data_end_bit : ℕ
int_data_end_bit = 0x00400000

abbrev pub int_bus_power : ℕ
int_bus_power = 0x00800000

abbrev pub int_auto_cmd_err : ℕ
int_auto_cmd_err = 0x01000000

abbrev pub int_adma_error : ℕ
int_adma_error = 0x02000000

abbrev pub int_cmd_mask : ℕ
int_cmd_mask = 0x10f0001

abbrev pub int_data_mask : ℕ
int_data_mask = 0x270003e
