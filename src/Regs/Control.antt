-- ===== src/Regs/Control.antt =====
-- sdhci.h: the bits of the command, transfer, present-state, control, power, clock and reset registers.
use linux_sdhci_rtt.Base.{ℕ}

abbrev pub trns_dma : ℕ
trns_dma = 0x01

abbrev pub trns_blk_cnt_en : ℕ
trns_blk_cnt_en = 0x02

abbrev pub trns_auto_cmd12 : ℕ
trns_auto_cmd12 = 0x04

abbrev pub trns_auto_cmd23 : ℕ
trns_auto_cmd23 = 0x08

abbrev pub trns_auto_sel : ℕ
trns_auto_sel = 0x0c

abbrev pub trns_read : ℕ
trns_read = 0x10

abbrev pub trns_multi : ℕ
trns_multi = 0x20

abbrev pub cmd_crc : ℕ
cmd_crc = 0x08

abbrev pub cmd_index : ℕ
cmd_index = 0x10

abbrev pub cmd_data : ℕ
cmd_data = 0x20

abbrev pub cmd_resp_none : ℕ
cmd_resp_none = 0x00

abbrev pub cmd_resp_long : ℕ
cmd_resp_long = 0x01

abbrev pub cmd_resp_short : ℕ
cmd_resp_short = 0x02

abbrev pub cmd_resp_short_busy : ℕ
cmd_resp_short_busy = 0x03

abbrev pub cmd_inhibit : ℕ
cmd_inhibit = 0x00000001

abbrev pub data_inhibit : ℕ
data_inhibit = 0x00000002

abbrev pub space_available : ℕ
space_available = 0x00000400

abbrev pub data_available : ℕ
data_available = 0x00000800

abbrev pub card_present : ℕ
card_present = 0x00010000

abbrev pub write_protect : ℕ
write_protect = 0x00080000

abbrev pub ctrl_led : ℕ
ctrl_led = 0x01

abbrev pub ctrl_4bitbus : ℕ
ctrl_4bitbus = 0x02

abbrev pub ctrl_dma_mask : ℕ
ctrl_dma_mask = 0x18

abbrev pub ctrl_sdma : ℕ
ctrl_sdma = 0x00

abbrev pub ctrl_adma32 : ℕ
ctrl_adma32 = 0x10

abbrev pub ctrl_adma64 : ℕ
ctrl_adma64 = 0x18

abbrev pub ctrl_8bitbus : ℕ
ctrl_8bitbus = 0x20

abbrev pub power_on : ℕ
power_on = 0x01

abbrev pub power_180 : ℕ
power_180 = 0x0a

abbrev pub power_300 : ℕ
power_300 = 0x0c

abbrev pub power_330 : ℕ
power_330 = 0x0e

abbrev pub divider_shift : ℕ
divider_shift = 8

abbrev pub divider_hi_shift : ℕ
divider_hi_shift = 6

abbrev pub div_mask : ℕ
div_mask = 0xff

abbrev pub div_mask_len : ℕ
div_mask_len = 8

abbrev pub div_hi_mask : ℕ
div_hi_mask = 0x300

abbrev pub prog_clock_mode : ℕ
prog_clock_mode = 0x0020

abbrev pub clock_card_en : ℕ
clock_card_en = 0x0004

abbrev pub clock_pll_en : ℕ
clock_pll_en = 0x0008

abbrev pub clock_int_stable : ℕ
clock_int_stable = 0x0002

abbrev pub clock_int_en : ℕ
clock_int_en = 0x0001

abbrev pub reset_all : ℕ
reset_all = 0x01

abbrev pub reset_cmd : ℕ
reset_cmd = 0x02

abbrev pub reset_data : ℕ
reset_data = 0x04

abbrev pub auto_cmd_timeout : ℕ
auto_cmd_timeout = 0x00000002

abbrev pub ctrl_uhs_mask : ℕ
ctrl_uhs_mask = 0x0007

abbrev pub ctrl_uhs_sdr12 : ℕ
ctrl_uhs_sdr12 = 0x0000

abbrev pub ctrl_uhs_sdr25 : ℕ
ctrl_uhs_sdr25 = 0x0001

abbrev pub ctrl_uhs_sdr50 : ℕ
ctrl_uhs_sdr50 = 0x0002

abbrev pub ctrl_uhs_sdr104 : ℕ
ctrl_uhs_sdr104 = 0x0003

abbrev pub ctrl_uhs_ddr50 : ℕ
ctrl_uhs_ddr50 = 0x0004

abbrev pub ctrl_hs400 : ℕ
ctrl_hs400 = 0x0005

abbrev pub ctrl_vdd_180 : ℕ
ctrl_vdd_180 = 0x0008

abbrev pub cmd23_enable : ℕ
cmd23_enable = 0x0800

abbrev pub ctrl_v4_mode : ℕ
ctrl_v4_mode = 0x1000

abbrev pub ctrl_64bit_addr : ℕ
ctrl_64bit_addr = 0x2000

abbrev pub data_0_lvl_mask : ℕ
data_0_lvl_mask = 0x00100000

abbrev pub ctrl_hispd : ℕ
ctrl_hispd = 0x04

abbrev pub ctrl_drv_type_mask : ℕ
ctrl_drv_type_mask = 0x0030

abbrev pub ctrl_drv_type_b : ℕ
ctrl_drv_type_b = 0x0000

abbrev pub ctrl_drv_type_a : ℕ
ctrl_drv_type_a = 0x0010

abbrev pub ctrl_drv_type_c : ℕ
ctrl_drv_type_c = 0x0020

abbrev pub ctrl_drv_type_d : ℕ
ctrl_drv_type_d = 0x0030

abbrev pub ctrl_exec_tuning : ℕ
ctrl_exec_tuning = 0x0040

abbrev pub ctrl_tuned_clk : ℕ
ctrl_tuned_clk = 0x0080

abbrev pub ctrl_preset_val_enable : ℕ
ctrl_preset_val_enable = 0x8000

abbrev pub wake_up_control : ℕ
wake_up_control = 0x2b

abbrev pub wake_on_int : ℕ
wake_on_int = 0x01

abbrev pub wake_on_insert : ℕ
wake_on_insert = 0x02

abbrev pub wake_on_remove : ℕ
wake_on_remove = 0x04

abbrev pub ctrl_adma3 : ℕ
ctrl_adma3 = 0x18

abbrev pub capabilities : ℕ
capabilities = 0x40

abbrev pub capabilities_1 : ℕ
capabilities_1 = 0x44

abbrev pub host_version : ℕ
host_version = 0xfe
