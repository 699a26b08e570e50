-- ===== src/Power/Mode.antt =====
-- port/osdep/mmc/mmc.h: MMC_POWER_OFF, MMC_POWER_UP, MMC_POWER_ON and MMC_POWER_UNDEFINED.

pub data PowerMode : Type 0 where
  power_off power_up power_on power_undefined : PowerMode
