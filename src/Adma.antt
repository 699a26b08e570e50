-- ===== src/Adma.antt =====
-- sdhci.c: the ADMA2 descriptor table. sdhci_adma_write_desc, sdhci_adma_mark_end,
-- sdhci_adma_table_pre and sdhci_adma_table_post. Host variants that write descriptors of their own
-- (`ops->adma_write_desc`) are not modelled. A descriptor is a record, `desc - host->adma_table` is
-- the length of the table times `desc_sz`.
pub mod Shape
pub mod Fetch
pub mod Transfer
pub mod Restore
use linux_sdhci_rtt.Base.{
  ℕ, zero, suc, ◌+◌, ◌-◌, ◌*◌, ◌/◌, ◌%◌, ◌^◌, bit_and, bit_or, Bool, true, false, not, ◌&&◌, ◌||◌,
  Option, none, some, List, [], ◌∷◌, ◌++◌, map, ◌==◌, ltb, if◌then◌else◌, has, u16, u32, u64,
  length, take, drop,
}
use linux_sdhci_rtt.Regs.{adma2_align, adma2_tran_valid, adma2_nop_end_valid, adma2_end}

-- `struct sdhci_adma2_64_desc`.
pub record Desc : Type 0 where
  pub cmd : ℕ
  pub len : ℕ
  pub addr_lo : ℕ
  pub addr_hi : ℕ

-- A mapped entry of the scatter list: its DMA address and length, and the bytes that it holds.
pub record Sg : Type 0 where
  pub dma_address : ℕ
  pub length : ℕ
  pub bytes : List ℕ

-- SDHCI_ADMA2_MASK.
abbrev pub adma2_mask : ℕ
adma2_mask = adma2_align - 1

-- The upper half is written for 64-bit DMA only, and keeps what the table held before otherwise.
unfoldable pub adma_write_desc : Bool → ℕ → ℕ → ℕ → ℕ → Desc
adma_write_desc use_64 old addr len cmd = record {
  cmd = u16 cmd;
  len = u16 len;
  addr_lo = u32 addr;
  addr_hi = if use_64 then u32 (addr / 2 ^ 32) else old;
}

unfoldable pub adma_mark_end : Desc → Desc
adma_mark_end desc = record desc { cmd = bit_or desc.cmd adma2_end }

-- What the loop of sdhci_adma_table_pre keeps: the descriptors so far, oldest first, and the align
-- buffer: its next address, and the words of four bytes that are copied into it.
pub record Table : Type 0 where
  pub descs : List Desc
  pub align_addr : ℕ
  pub align : List (List ℕ)

-- The bytes before the next address that is a multiple of four.
unfoldable pub align_offset : ℕ → ℕ
align_offset addr = bit_and (adma2_align - bit_and addr adma2_mask) adma2_mask

-- The descriptor of the unaligned bytes, if there are any.
unfoldable pub head_descs : Bool → ℕ → ℕ → ℕ → List Desc
head_descs use_64 old align_addr offset =
    if offset == 0 then [] else adma_write_desc use_64 old align_addr offset adma2_tran_valid ∷ []

-- The descriptor of the rest, if there is any.
unfoldable pub body_descs : Bool → ℕ → ℕ → ℕ → List Desc
body_descs use_64 old addr len =
    if len == 0 then [] else adma_write_desc use_64 old addr len adma2_tran_valid ∷ []

-- `len` is an `int`: where `offset` exceeds it, the difference is negative, and so not 0; its low
-- sixteen bits go into the descriptor.
unfoldable pub rest_len : ℕ → ℕ → ℕ
rest_len len offset = if offset == 0 then len else u32 (len + 2 ^ 32 - offset)

module _ (use_64 write : Bool) (old : ℕ) where
  -- One round of `for_each_sg`: a descriptor for the unaligned bytes, by way of the align buffer,
  -- and one for the rest. The align buffer is filled when the card is written to.
  unfoldable pub add_sg : Table → Sg → Table
  add_sg t sg =
      let offset = align_offset sg.dma_address in
      let addr = u64 (sg.dma_address + offset) in
      record {
        descs =
            t.descs
            ++ (head_descs use_64 old t.align_addr offset
                ++ body_descs use_64 old addr (rest_len sg.length offset));
        align_addr = if offset == 0 then t.align_addr else t.align_addr + adma2_align;
        align =
            if offset == 0
            then t.align
            else t.align ++ (if write then take offset sg.bytes else []) ∷ [];
      }

  pub add_sgs : Table → List Sg → Table
  add_sgs t [] = t
  add_sgs t (sg ∷ sgs) = add_sgs (add_sg t sg) sgs

-- The last descriptor is marked.
unfoldable pub mark_last : List Desc → List Desc
mark_last [] = []
mark_last (d ∷ []) = adma_mark_end d ∷ []
mark_last (d ∷ e ∷ ds) = d ∷ mark_last (e ∷ ds)

-- `host->quirks & SDHCI_QUIRK_NO_ENDATTR_IN_NOPDESC` marks the last descriptor, if there is one;
-- else a descriptor that does nothing ends the table.
unfoldable pub finish : Bool → Bool → ℕ → List Desc → List Desc
unfolding mark_last adma_write_desc
finish true use_64 old descs = mark_last descs
finish false use_64 old descs = descs ++ adma_write_desc use_64 old 0 0 adma2_nop_end_valid ∷ []

unfoldable pub start_table : ℕ → Table
start_table align_addr = record { descs = []; align_addr = align_addr; align = [] }

unfoldable pub adma_table_pre :
    (no_endattr use_64 write : Bool) → (old align_addr : ℕ) → List Sg → List Desc × Table
unfolding add_sgs start_table finish
adma_table_pre no_endattr use_64 write old align_addr sgs =
    let t = add_sgs use_64 write old (start_table align_addr) sgs in
    (finish no_endattr use_64 old t.descs, t)

-- The scan for an unaligned mapping.
unfoldable pub has_unaligned : List Sg → Bool
has_unaligned [] = false
has_unaligned (sg ∷ sgs) = has sg.dma_address adma2_mask || has_unaligned sgs

-- The second loop of sdhci_adma_table_post, which copies the bytes that came by way of the align
-- buffer to the entry that they belong to. `align` holds the words of the align buffer.
unfoldable pub copy_back : List (List ℕ) → List Sg → List Sg
copy_back align [] = []
copy_back [] (sg ∷ sgs) = sg ∷ copy_back [] sgs
copy_back (word ∷ align) (sg ∷ sgs) =
    let size = adma2_align - bit_and sg.dma_address adma2_mask in
    if has sg.dma_address adma2_mask
    then record sg { bytes = take size word ++ drop size sg.bytes } ∷ copy_back align sgs
    else sg ∷ copy_back (word ∷ align) sgs

unfoldable pub adma_table_post : Bool → List (List ℕ) → List Sg → List Sg
unfolding has_unaligned copy_back
adma_table_post is_read align sgs =
    if is_read && has_unaligned sgs then copy_back align sgs else sgs
