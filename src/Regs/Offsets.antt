-- ===== src/Regs/Offsets.antt =====
-- sdhci.h: the offsets of the controller registers.
use linux_sdhci_rtt.Base.{ℕ}

abbrev pub dma_address : ℕ
dma_address = 0x00

abbrev pub block_size : ℕ
block_size = 0x04

abbrev pub block_count : ℕ
block_count = 0x06

abbrev pub argument : ℕ
argument = 0x08

abbrev pub transfer_mode : ℕ
transfer_mode = 0x0c

abbrev pub command : ℕ
command = 0x0e

abbrev pub response : ℕ
response = 0x10

abbrev pub buffer : ℕ
buffer = 0x20

abbrev pub present_state : ℕ
present_state = 0x24

abbrev pub host_control : ℕ
host_control = 0x28

abbrev pub power_control : ℕ
power_control = 0x29

abbrev pub clock_control : ℕ
clock_control = 0x2c

abbrev pub timeout_control : ℕ
timeout_control = 0x2e

abbrev pub software_reset : ℕ
software_reset = 0x2f

abbrev pub int_status : ℕ
int_status = 0x30

abbrev pub int_enable : ℕ
int_enable = 0x34

abbrev pub signal_enable : ℕ
signal_enable = 0x38

abbrev pub auto_cmd_status : ℕ
auto_cmd_status = 0x3c

abbrev pub host_control2 : ℕ
host_control2 = 0x3e

abbrev pub adma_address : ℕ
adma_address = 0x58

abbrev pub adma_address_hi : ℕ
adma_address_hi = 0x5c

abbrev pub preset_for_sdr12 : ℕ
preset_for_sdr12 = 0x66

abbrev pub preset_for_sdr25 : ℕ
preset_for_sdr25 = 0x68

abbrev pub preset_for_sdr50 : ℕ
preset_for_sdr50 = 0x6a

abbrev pub preset_for_sdr104 : ℕ
preset_for_sdr104 = 0x6c

abbrev pub preset_for_ddr50 : ℕ
preset_for_ddr50 = 0x6e

abbrev pub preset_for_hs400 : ℕ
preset_for_hs400 = 0x74

abbrev pub preset_clkgen_sel : ℕ
preset_clkgen_sel = 0x400

abbrev pub preset_sdclk_freq_mask : ℕ
preset_sdclk_freq_mask = 0x3ff
