-- ===== src/Regs/Quirks.antt =====
-- sdhci.h: the deviations of a controller from the specification, bits of `quirks` and `quirks2`.
use linux_sdhci_rtt.Base.{ℕ}

abbrev pub quirk_clock_before_reset : ℕ
quirk_clock_before_reset = 0x1

abbrev pub quirk_no_card_no_reset : ℕ
quirk_no_card_no_reset = 0x4

abbrev pub quirk_single_power_write : ℕ
quirk_single_power_write = 0x8

abbrev pub quirk_32bit_dma_addr : ℕ
quirk_32bit_dma_addr = 0x80

abbrev pub quirk_32bit_dma_size : ℕ
quirk_32bit_dma_size = 0x100

abbrev pub quirk_32bit_adma_size : ℕ
quirk_32bit_adma_size = 0x200

abbrev pub quirk_reset_after_request : ℕ
quirk_reset_after_request = 0x400

abbrev pub quirk_no_simult_vdd_and_power : ℕ
quirk_no_simult_vdd_and_power = 0x800

abbrev pub quirk_broken_timeout_val : ℕ
quirk_broken_timeout_val = 0x1000

abbrev pub quirk_broken_small_pio : ℕ
quirk_broken_small_pio = 0x2000

abbrev pub quirk_no_busy_irq : ℕ
quirk_no_busy_irq = 0x4000

abbrev pub quirk_broken_card_detection : ℕ
quirk_broken_card_detection = 0x8000

abbrev pub quirk_pio_needs_delay : ℕ
quirk_pio_needs_delay = 0x40000

abbrev pub quirk_no_led : ℕ
quirk_no_led = 0x80000

abbrev pub quirk_delay_after_power : ℕ
quirk_delay_after_power = 0x800000

abbrev pub quirk_no_endattr_in_nopdesc : ℕ
quirk_no_endattr_in_nopdesc = 0x4000000

abbrev pub quirk2_card_on_needs_bus_on : ℕ
quirk2_card_on_needs_bus_on = 0x10

abbrev pub quirk2_stop_with_tc : ℕ
quirk2_stop_with_tc = 0x100

abbrev pub quirk2_clear_transfermode_reg_before_cmd : ℕ
quirk2_clear_transfermode_reg_before_cmd = 0x400

abbrev pub quirk2_support_single : ℕ
quirk2_support_single = 0x2000

abbrev pub quirk2_clock_div_zero_broken : ℕ
quirk2_clock_div_zero_broken = 0x8000

abbrev pub quirk2_rsp_136_has_crc : ℕ
quirk2_rsp_136_has_crc = 0x10000

abbrev pub quirk2_disable_hw_timeout : ℕ
quirk2_disable_hw_timeout = 0x20000

abbrev pub quirk2_use_32bit_blk_cnt : ℕ
quirk2_use_32bit_blk_cnt = 0x40000

abbrev pub quirk_inverted_write_protect : ℕ
quirk_inverted_write_protect = 0x10000

abbrev pub quirk_unstable_ro_detect : ℕ
quirk_unstable_ro_detect = 0x80000000

abbrev pub quirk_reset_cmd_data_on_ios : ℕ
quirk_reset_cmd_data_on_ios = 0x10

abbrev pub quirk_data_timeout_uses_sdclk : ℕ
quirk_data_timeout_uses_sdclk = 0x1000000

abbrev pub quirk_no_hispd_bit : ℕ
quirk_no_hispd_bit = 0x20000000

abbrev pub quirk2_preset_value_broken : ℕ
quirk2_preset_value_broken = 0x8

abbrev pub quirk2_tuning_work_around : ℕ
quirk2_tuning_work_around = 0x1000

abbrev pub quirk2_host_off_card_on : ℕ
quirk2_host_off_card_on = 0x1

abbrev pub quirk_force_dma : ℕ
quirk_force_dma = 0x2

abbrev pub quirk_broken_dma : ℕ
quirk_broken_dma = 0x20

abbrev pub quirk_broken_adma : ℕ
quirk_broken_adma = 0x40

abbrev pub quirk_cap_clock_base_broken : ℕ
quirk_cap_clock_base_broken = 0x2000000

abbrev pub quirk_missing_caps : ℕ
quirk_missing_caps = 0x8000000

abbrev pub quirk_multiblock_read_acmd12 : ℕ
quirk_multiblock_read_acmd12 = 0x10000000

abbrev pub quirk2_acmd23_broken : ℕ
quirk2_acmd23_broken = 0x4000

abbrev pub quirk2_no_1_8_v : ℕ
quirk2_no_1_8_v = 0x4

abbrev pub quirk_force_blk_sz_2048 : ℕ
quirk_force_blk_sz_2048 = 0x100000

abbrev pub quirk_no_multiblock : ℕ
quirk_no_multiblock = 0x200000

abbrev pub quirk_broken_adma_zerolen_desc : ℕ
quirk_broken_adma_zerolen_desc = 0x40000000
