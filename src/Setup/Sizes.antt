-- ===== src/Setup/Sizes.antt =====
-- sdhci.c: the limits of a transfer and the currents that sdhci_setup_host makes of the capabilities. The port's
-- swiotlb_max_segment tells 0, so that it limits nothing, and there are no regulators.
use linux_sdhci_rtt.Base.{ℕ, ◌*◌, ◌/◌, ◌%◌, ◌^◌, ◌<<<◌, leb, if◌then◌else◌, has}
use linux_sdhci_rtt.Regs.{
  use_adma, use_sdma, max_segs as sdhci_max_segs, quirk_force_blk_sz_2048, quirk_no_multiblock,
  quirk_broken_adma_zerolen_desc, can_vdd_330, can_vdd_300, can_vdd_180, max_current,
  max_current_multiplier,
}
use linux_sdhci_rtt.Device.{M, ◌>>=◌, ret, readl}

-- The fields of `struct mmc_host`.
pub record Sizes : Type 0 where
  pub max_req_size : ℕ
  pub max_segs : ℕ
  pub max_seg_size : ℕ
  pub max_blk_size : ℕ
  pub max_blk_count : ℕ

-- 512, 1024 or 2048; the value 3 stands for 512.
unfoldable pub block_size_of : ℕ → ℕ → ℕ
block_size_of quirks caps =
    let n = if has quirks quirk_force_blk_sz_2048 then 2 else caps / 2 ^ 16 % 4 in
    512 <<< (if leb 3 n then 0 else n)

unfoldable pub sizes_of : ℕ → ℕ → ℕ → Sizes
sizes_of flags quirks caps = record {
  max_req_size = 524288;
  max_segs =
      if has flags use_adma
      then sdhci_max_segs
      else if has flags use_sdma
      then 1
      else sdhci_max_segs;
  max_seg_size =
      if has flags use_adma
      then if has quirks quirk_broken_adma_zerolen_desc then 65535 else 65536
      else 524288;
  max_blk_size = block_size_of quirks caps;
  max_blk_count = if has quirks quirk_no_multiblock then 1 else 65535;
}

-- `mmc->max_current_330`, `_300` and `_180`, in mA, 0 for a voltage that the controller lacks.
pub record Currents : Type 0 where
  pub at_330 : ℕ
  pub at_300 : ℕ
  pub at_180 : ℕ

unfoldable pub currents : ℕ → M Currents
currents caps = do
  v ← readl max_current
  ret (record {
    at_330 = if has caps can_vdd_330 then v % 2 ^ 8 * max_current_multiplier else 0;
    at_300 = if has caps can_vdd_300 then v / 2 ^ 8 % 2 ^ 8 * max_current_multiplier else 0;
    at_180 = if has caps can_vdd_180 then v / 2 ^ 16 % 2 ^ 8 * max_current_multiplier else 0;
  })
