-- ===== src/Dma.antt =====
-- sdhci.c: sdhci_config_dma, sdhci_set_adma_addr, sdhci_set_sdma_addr, sdhci_pre_dma_transfer,
-- sdhci_set_block_info and the choices of sdhci_prepare_data. dma_map_sg of the port maps every
-- entry and returns their number. Copies into a bounce buffer are left to the memory model of the
-- DMA tables; here a bounce buffer is its size.
use linux_sdhci_rtt.Base.{
  ℕ, ◌*◌, ◌/◌, ◌^◌, bit_and, bit_or, Bool, true, false, not, ◌&&◌, ◌||◌, Option, none, some, List,
  [], ◌∷◌, ltb, leb, ◌==◌, if◌then◌else◌, has, clear, u32, length, ◌<<<◌, zero, suc,
}
use linux_sdhci_rtt.Regs.{
  spec_200, spec_410, host_control, host_control2, ctrl_dma_mask, ctrl_adma32, ctrl_adma64,
  ctrl_64bit_addr, req_use_dma, use_adma, use_sdma, use_64_bit_dma, adma_address, adma_address_hi,
  dma_address, block_size, block_count, quirk2_use_32bit_blk_cnt, quirk_32bit_adma_size,
  quirk_32bit_dma_size, quirk_32bit_dma_addr,
}
use linux_sdhci_rtt.Device.{M, ◌>>=◌, ◌>>◌, ret, get, when, readw, readb, writel, writew, writeb}
use linux_sdhci_rtt.Mmc.{Data, SgEntry, Cookie}

-- The DMA selection of the host control register, once DMA is wanted.
unfoldable pub dma_select : ℕ → Bool → ℕ → ℕ
dma_select flags v4_mode ctrl =
    let chosen = if has flags use_adma then bit_or ctrl ctrl_adma32 else ctrl in
    if has flags use_64_bit_dma && not v4_mode && has flags use_adma
    then bit_or chosen ctrl_adma64
    else chosen

unfoldable pub config_dma : M (Unit {0})
unfolding dma_select
config_dma = do
  d ← get
  if ltb d.version spec_200 then ret tt else (do
    c ← readb host_control
    let ctrl = clear 8 c ctrl_dma_mask
    when (has d.flags req_use_dma && has d.flags use_64_bit_dma && d.v4_mode)
        (do ctrl2 ← readw host_control2; writew (bit_or ctrl2 ctrl_64bit_addr) host_control2)
    writeb (if has d.flags req_use_dma then dma_select d.flags d.v4_mode ctrl else ctrl)
        host_control)

unfoldable pub set_adma_addr : ℕ → M (Unit {0})
set_adma_addr addr = do
  d ← get
  writel addr adma_address
  when (has d.flags use_64_bit_dma) (writel (addr / 2 ^ 32) adma_address_hi)

unfoldable pub set_sdma_addr : ℕ → M (Unit {0})
unfolding set_adma_addr
set_sdma_addr addr = do d ← get; if d.v4_mode then set_adma_addr addr else writel addr dma_address

-- SDHCI_MAKE_BLKSZ.
unfoldable pub make_blksz : ℕ → ℕ → ℕ
make_blksz dma blksz = bit_or (bit_and dma 7 <<< 12) (bit_and blksz 0xfff)

-- SDHCI_32BIT_BLK_CNT is another name of the first register.
unfoldable pub set_block_info : Data → M (Unit {0})
unfolding make_blksz
set_block_info x = do
  d ← get
  writew (make_blksz d.sdma_boundary x.blksz) block_size
  if leb spec_410 d.version && d.v4_mode && has d.quirks2 quirk2_use_32bit_blk_cnt
      then (do
        count ← readw block_count
        when (not (count == 0)) (writew 0 block_count)
        writew x.blocks dma_address)
      else writew x.blocks block_count

-- The masks of sdhci_prepare_data: which bits of an entry's length and offset rule out DMA.
unfoldable pub dma_masks : ℕ → ℕ → ℕ × ℕ
dma_masks flags quirks =
    if has flags use_adma then (if has quirks quirk_32bit_adma_size then (3, 3) else (0, 0)) else (
      if has quirks quirk_32bit_dma_size then 3 else 0,
      if has quirks quirk_32bit_dma_addr then 3 else 0,
    )

-- The loop over the scatter list: whether an entry reverts the request to PIO.
unfoldable pub reverts : ℕ → ℕ → List SgEntry → Bool
reverts length_mask offset_mask [] = false
reverts length_mask offset_mask (sg ∷ sgs) =
    has sg.length length_mask || has sg.offset offset_mask || reverts length_mask offset_mask sgs

-- `host->flags` after the first half of sdhci_prepare_data.
unfoldable pub dma_flags : ℕ → ℕ → List SgEntry → ℕ
unfolding dma_masks reverts
dma_flags flags quirks sgs =
    let (length_mask, offset_mask) = dma_masks flags quirks in
    if has flags (bit_or use_sdma use_adma)
    then (if not (bit_or length_mask offset_mask == 0) && reverts length_mask offset_mask sgs
        then clear 32 (bit_or flags req_use_dma) req_use_dma
        else bit_or flags req_use_dma)
    else flags

-- sdhci_pre_dma_transfer: `none` stands for an error or for no entry. The bounce buffer is given by
-- its size.
map_data : Data → Cookie → ℕ → Data × Option ℕ
map_data x cookie zero = (x, none)
map_data x cookie (suc n) = (record x { sg_count = suc n; host_cookie = cookie }, some (suc n))

-- Data that is not mapped yet: through the bounce buffer, if it is large enough, or directly.
map_fresh : Option ℕ → Data → Cookie → Data × Option ℕ
unfolding map_data
map_fresh (some size) x cookie =
    if ltb size (u32 (x.blksz * x.blocks)) then (x, none) else map_data x cookie 1
map_fresh none x cookie = map_data x cookie (length x.sg)

abbrev pub is_pre_mapped : Cookie → Bool
is_pre_mapped Cookie.pre_mapped = true
is_pre_mapped _ = false

-- The test `sg_cnt <= 0` of sdhci_prepare_data.
abbrev pub some_entries : ℕ → Option ℕ
some_entries zero = none
some_entries (suc n) = some (suc n)

unfoldable pub pre_dma_transfer : Option ℕ → Data → Cookie → Data × Option ℕ
unfolding map_fresh
pre_dma_transfer bounce x cookie =
    if is_pre_mapped x.host_cookie then (x, some_entries x.sg_count) else map_fresh bounce x cookie
