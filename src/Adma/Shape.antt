-- ===== src/Adma/Shape.antt =====
-- sdhci_adma_table_pre: how an entry is cut, and the shape of the table.
use linux_sdhci_rtt.Base.{
  ℕ, ◌+◌, ◌-◌, ◌*◌, ◌%◌, ◌≤◌, ◌<◌, ◌≡◌, ap, ◌∙◌, bit_and, Bool, true, false, List, [], ◌∷◌, ◌++◌,
  if◌then◌else◌, u64, length, take, length-append, bit_and_low, arith,
}
use linux_sdhci_rtt.Regs.{adma2_tran_valid}
use linux_sdhci_rtt.Adma.{
  Desc, Sg, Table, adma_write_desc, align_offset, head_descs, body_descs, rest_len, add_sg, add_sgs,
  mark_last, finish, start_table, adma_table_pre, adma_mark_end,
}

pub align_offset-mod : (a : ℕ) → align_offset a ≡ (4 - a % 4) % 4
unfolding align_offset
align_offset-mod a = bit_and_low 2 (4 - bit_and a 3) ∙ ap (λ (t : ℕ). (4 - t) % 4) (bit_and_low 2 a)

pub align_offset-aligns : (a : ℕ) → (a + align_offset a) % 4 ≡ 0
align_offset-aligns a = omega (arith, align_offset-mod a)

pub align_offset-lt : (a : ℕ) → align_offset a < 4
align_offset-lt a = omega (arith, align_offset-mod a)

cut_length :
    (use_64 : Bool) (old align_addr offset addr len : ℕ)
    → length (head_descs use_64 old align_addr offset ++ body_descs use_64 old addr len) ≤ 2
unfolding head_descs body_descs
cut_length use_64 old align_addr offset addr len = ground arith

-- Each round adds at most two descriptors, and at most one word to the align buffer.
pub add_sg_count :
    (use_64 write : Bool) (old : ℕ) (t : Table) (sg : Sg)
    → let t' = add_sg use_64 write old t sg in
      (length t'.descs ≤ length t.descs + 2)
      × (length t'.align ≤ length t.align + 1)
      × (t'.align_addr + 4 * length t.align ≡ t.align_addr + 4 * length t'.align)
unfolding add_sg
add_sg_count use_64 write old t sg = ground (
  arith,
  length-append t.descs (
      head_descs use_64 old t.align_addr (align_offset sg.dma_address)
      ++ body_descs use_64 old (u64 (sg.dma_address + align_offset sg.dma_address))
          (rest_len sg.length (align_offset sg.dma_address))),
  cut_length use_64 old t.align_addr (align_offset sg.dma_address)
      (u64 (sg.dma_address + align_offset sg.dma_address))
      (rest_len sg.length (align_offset sg.dma_address)),
  length-append t.align ((if write then take (align_offset sg.dma_address) sg.bytes else []) ∷ []),
)

-- Every address of the table is a multiple of four.
abbrev pub IsAligned : List Desc → Type 0
IsAligned [] = Unit {0}
IsAligned (d ∷ ds) = (d.addr_lo % 4 ≡ 0) × IsAligned ds

IsAligned-append : (ds es : List Desc) → IsAligned ds → IsAligned es → IsAligned (ds ++ es)
IsAligned-append [] es hd he = he
IsAligned-append (d ∷ ds) es hd he = (hd.0, IsAligned-append ds es hd.1 he)

cut-IsAligned :
    (use_64 : Bool) (old align_addr offset addr len : ℕ)
    → align_addr % 4 ≡ 0
    → addr % 4 ≡ 0
    → IsAligned (head_descs use_64 old align_addr offset ++ body_descs use_64 old addr len)
unfolding head_descs body_descs adma_write_desc
cut-IsAligned use_64 old align_addr offset addr len p q = ground arith

add_sg-IsAligned :
    (use_64 write : Bool) (old : ℕ) (t : Table) (sg : Sg)
    → IsAligned t.descs
    → t.align_addr % 4 ≡ 0
    → IsAligned (add_sg use_64 write old t sg).descs
      × ((add_sg use_64 write old t sg).align_addr % 4 ≡ 0)
unfolding add_sg
add_sg-IsAligned use_64 write old t sg p q =
    let offset = align_offset sg.dma_address in
    (
      IsAligned-append t.descs _ p (
          cut-IsAligned use_64 old t.align_addr offset (u64 (sg.dma_address + offset))
            (rest_len sg.length offset) q (omega (arith, align_offset-aligns sg.dma_address))),
      ground arith,
    )

add_sgs-IsAligned :
    (use_64 write : Bool) (old : ℕ) (t : Table) (sgs : List Sg)
    → IsAligned t.descs
    → t.align_addr % 4 ≡ 0
    → IsAligned (add_sgs use_64 write old t sgs).descs
unfolding add_sgs
add_sgs-IsAligned use_64 write old t [] p q = p
add_sgs-IsAligned use_64 write old t (sg ∷ sgs) p q =
    let (p', q') = add_sg-IsAligned use_64 write old t sg p q in
    add_sgs-IsAligned use_64 write old (add_sg use_64 write old t sg) sgs p' q'

mark_last-IsAligned : (ds : List Desc) → IsAligned ds → IsAligned (mark_last ds)
unfolding mark_last adma_mark_end
mark_last-IsAligned [] h = h
mark_last-IsAligned (d ∷ []) h = h
mark_last-IsAligned (d ∷ e ∷ ds) h = (h.0, mark_last-IsAligned (e ∷ ds) h.1)

-- If the address of the align buffer is a multiple of four, so is the lower half of every address
-- in the table, however the entries are aligned.
pub adma_table_pre-IsAligned :
    (no_endattr use_64 write : Bool) (old align_addr : ℕ) (sgs : List Sg)
    → align_addr % 4 ≡ 0
    → IsAligned (adma_table_pre no_endattr use_64 write old align_addr sgs).0
unfolding adma_table_pre start_table finish adma_write_desc
adma_table_pre-IsAligned true use_64 write old align_addr sgs h =
    mark_last-IsAligned _ (add_sgs-IsAligned use_64 write old (start_table align_addr) sgs tt h)
adma_table_pre-IsAligned false use_64 write old align_addr sgs h =
    IsAligned-append _ _ (add_sgs-IsAligned use_64 write old (start_table align_addr) sgs tt h)
      (omega arith)

-- An entry that is shorter than its unaligned head gets two descriptors. The second is for memory
-- behind the entry, and its length is 65536 less the bytes by which the entry is too short.
pub add_sg_short :
    (use_64 write : Bool) (old : ℕ) (t : Table) (sg : Sg)
    → sg.length < align_offset sg.dma_address
    → (add_sg use_64 write old t sg).descs
      ≡ t.descs
        ++ adma_write_desc use_64 old t.align_addr (align_offset sg.dma_address) adma2_tran_valid
          ∷ adma_write_desc use_64 old
              (u64 (sg.dma_address + align_offset sg.dma_address))
              (65536 + sg.length - align_offset sg.dma_address)
              adma2_tran_valid
          ∷ []
unfolding add_sg head_descs body_descs rest_len adma_write_desc
add_sg_short use_64 write old t sg short = ground (arith, align_offset-lt sg.dma_address)
