-- ===== src/Regs/Attributes.antt =====
-- sdhci.h: specification versions, divider limits, ADMA2 descriptors and the host attributes in `flags`.
use linux_sdhci_rtt.Base.{ℕ}

abbrev pub spec_100 : ℕ
spec_100 = 0

abbrev pub spec_200 : ℕ
spec_200 = 1

abbrev pub spec_300 : ℕ
spec_300 = 2

abbrev pub spec_400 : ℕ
spec_400 = 3

abbrev pub spec_410 : ℕ
spec_410 = 4

abbrev pub spec_420 : ℕ
spec_420 = 5

abbrev pub max_div_spec_200 : ℕ
max_div_spec_200 = 256

abbrev pub max_div_spec_300 : ℕ
max_div_spec_300 = 2046

abbrev pub adma2_32_desc_sz : ℕ
adma2_32_desc_sz = 8

abbrev pub adma2_align : ℕ
adma2_align = 4

abbrev pub adma2_desc_align : ℕ
adma2_desc_align = 8

abbrev pub adma2_tran_valid : ℕ
adma2_tran_valid = 0x21

abbrev pub adma2_nop_end_valid : ℕ
adma2_nop_end_valid = 0x3

abbrev pub adma2_end : ℕ
adma2_end = 0x2

abbrev pub max_mrqs : ℕ
max_mrqs = 2

abbrev pub use_sdma : ℕ
use_sdma = 0x1

abbrev pub use_adma : ℕ
use_adma = 0x2

abbrev pub req_use_dma : ℕ
req_use_dma = 0x4

abbrev pub device_dead : ℕ
device_dead = 0x8

abbrev pub auto_cmd12 : ℕ
auto_cmd12 = 0x40

abbrev pub auto_cmd23 : ℕ
auto_cmd23 = 0x80

abbrev pub use_64_bit_dma : ℕ
use_64_bit_dma = 0x1000

abbrev pub tuning_mode_1 : ℕ
tuning_mode_1 = 0

abbrev pub tuning_mode_2 : ℕ
tuning_mode_2 = 1

abbrev pub tuning_mode_3 : ℕ
tuning_mode_3 = 2

abbrev pub preset_drv_mask : ℕ
preset_drv_mask = 0xc000

abbrev pub sdr50_needs_tuning : ℕ
sdr50_needs_tuning = 0x10

abbrev pub pv_enabled : ℕ
pv_enabled = 0x100

abbrev pub hs400_tuning : ℕ
hs400_tuning = 0x2000

abbrev pub signaling_330 : ℕ
signaling_330 = 0x4000

abbrev pub signaling_180 : ℕ
signaling_180 = 0x8000

abbrev pub signaling_120 : ℕ
signaling_120 = 0x10000

abbrev pub can_do_adma3 : ℕ
can_do_adma3 = 0x08000000

abbrev pub timeout_clk_unit : ℕ
timeout_clk_unit = 0x00000080

abbrev pub can_do_adma2 : ℕ
can_do_adma2 = 0x00080000

abbrev pub can_do_sdma : ℕ
can_do_sdma = 0x00400000

abbrev pub can_64bit : ℕ
can_64bit = 0x10000000

abbrev pub can_64bit_v4 : ℕ
can_64bit_v4 = 0x08000000

abbrev pub support_sdr50 : ℕ
support_sdr50 = 0x00000001

abbrev pub support_sdr104 : ℕ
support_sdr104 = 0x00000002

abbrev pub support_ddr50 : ℕ
support_ddr50 = 0x00000004

abbrev pub use_sdr50_tuning : ℕ
use_sdr50_tuning = 0x00002000

abbrev pub max_segs : ℕ
max_segs = 128

abbrev pub can_vdd_330 : ℕ
can_vdd_330 = 0x01000000

abbrev pub can_vdd_300 : ℕ
can_vdd_300 = 0x02000000

abbrev pub can_vdd_180 : ℕ
can_vdd_180 = 0x04000000

abbrev pub max_current : ℕ
max_current = 0x48

abbrev pub max_current_multiplier : ℕ
max_current_multiplier = 4
