-- ===== src/Adma/Transfer.antt =====
-- sdhci_adma_table_pre as a whole, and a controller that follows the table.
use mathlib.Core.List.{append_assoc, append-nil}
use linux_sdhci_rtt.Base.{
  ℕ, zero, suc, ◌+◌, ◌*◌, ◌≤◌, ◌≡◌, refl, ap, ap₂, sym, subst, ◌∙◌, bit_or, Bool, true, false, List,
  [], ◌∷◌, ◌++◌, ◌==◌, if◌then◌else◌, has, length, take, length-take, max, arith, suc-==_zero, bit,
  has-bit, bit-bit_or,
}
use linux_sdhci_rtt.Regs.{adma2_nop_end_valid, adma2_end}
use linux_sdhci_rtt.Adma.{
  Desc, Sg, Table, adma_write_desc, align_offset, add_sg, add_sgs, mark_last, finish, start_table,
  adma_table_pre, adma_mark_end,
}
use linux_sdhci_rtt.Adma.Fetch.{
  fetch, limit, IsMapped, AllMapped, Holds, all_bytes, cut, fetch-cut, read_mem, length-read_mem,
  desc_addr, desc_len,
}

-- The address behind an entry's word of the align buffer.
abbrev next_align : ℕ → Sg → ℕ
next_align a sg = if align_offset sg.dma_address == 0 then a else a + 4

-- The descriptors that a scatter list adds, and the words of the align buffer for a write.
abbrev cuts : Bool → ℕ → ℕ → List Sg → List Desc
cuts use_64 old a [] = []
cuts use_64 old a (sg ∷ sgs) = cut use_64 old a sg ++ cuts use_64 old (next_align a sg) sgs

abbrev pub words : List Sg → List (List ℕ)
words [] = []
words (sg ∷ sgs) =
    let offset = align_offset sg.dma_address in
    let rest = words sgs in if offset == 0 then rest else take offset sg.bytes ∷ rest

add_sgs-descs :
    (use_64 write : Bool) (old : ℕ) (t : Table) (sgs : List Sg)
    → (add_sgs use_64 write old t sgs).descs ≡ t.descs ++ cuts use_64 old t.align_addr sgs
unfolding add_sgs add_sg
add_sgs-descs use_64 write old t [] = sym (append-nil t.descs)
add_sgs-descs use_64 write old t (sg ∷ sgs) =
    add_sgs-descs use_64 write old (add_sg use_64 write old t sg) sgs
    ∙ append_assoc t.descs (cut use_64 old t.align_addr sg)
        (cuts use_64 old (next_align t.align_addr sg) sgs)

add_sgs-align :
    (use_64 : Bool) (old : ℕ) (t : Table) (sgs : List Sg)
    → (add_sgs use_64 true old t sgs).align ≡ t.align ++ words sgs
unfolding add_sgs add_sg
add_sgs-align use_64 old t [] = sym (append-nil t.align)
add_sgs-align use_64 old t (sg ∷ sgs) =
    add_sgs-align use_64 old (add_sg use_64 true old t sg) sgs
    ∙ joined (align_offset sg.dma_address == 0)
  where
    joined :
        (b : Bool)
        → (if b then t.align else t.align ++ take (align_offset sg.dma_address) sg.bytes ∷ [])
            ++ words sgs
          ≡ t.align
            ++ (if b then words sgs else take (align_offset sg.dma_address) sg.bytes ∷ words sgs)
    joined true = refl
    joined false =
        append_assoc t.align (take (align_offset sg.dma_address) sg.bytes ∷ []) (words sgs)

module _ (use_64 : Bool) (mem : ℕ → ℕ) (old : ℕ) (ds : List Desc) where
  -- What the align buffer gives the first entry, and leaves to the others.
  round :
      (a : ℕ) (sg : Sg) (sgs : List Sg)
      → IsMapped use_64 mem sg
      → a + 4 * length (sg ∷ sgs) ≤ limit use_64
      → Holds mem a (words (sg ∷ sgs))
      → (read_mem mem a (align_offset sg.dma_address) ≡ take (align_offset sg.dma_address) sg.bytes)
        × (next_align a sg + 4 * length sgs ≤ limit use_64)
        × Holds mem (next_align a sg) (words sgs)
  round a sg sgs v room held = split (align_offset sg.dma_address) v.covers held
    where
      size : length sg.bytes ≡ sg.length
      size = ap length (sym v.stored) ∙ length-read_mem mem sg.dma_address sg.length

      count : (n : ℕ) → n ≤ sg.length → length (take n sg.bytes) ≡ n
      count n le = omega (arith, length-take n sg.bytes, size)

      split :
          (o : ℕ)
          → o ≤ sg.length
          → Holds mem a (let rest = words sgs in if o == 0 then rest else take o sg.bytes ∷ rest)
          → (read_mem mem a o ≡ take o sg.bytes)
            × ((if o == 0 then a else a + 4) + 4 * length sgs ≤ limit use_64)
            × Holds mem (if o == 0 then a else a + 4) (words sgs)
      split zero le h = (unfold read_mem in refl, omega arith, h)
      split (suc o) le h = rw (suc-==_zero o) (
        ap (read_mem mem a) (sym (count (suc o) le)) ∙ (rw (suc-==_zero o) at h).0,
        omega arith,
        (rw (suc-==_zero o) at h).1,
      )

  fetch-cuts :
      (a : ℕ) (sgs : List Sg)
      → AllMapped use_64 mem sgs
      → a + 4 * length sgs ≤ limit use_64
      → Holds mem a (words sgs)
      → fetch use_64 mem (cuts use_64 old a sgs ++ ds) ≡ all_bytes sgs ++ fetch use_64 mem ds
  fetch-cuts a [] v room held = refl
  fetch-cuts a (sg ∷ sgs) (v, vs) room held =
      let step = round a sg sgs v room held in
      ap (fetch use_64 mem)
        (append_assoc (cut use_64 old a sg) (cuts use_64 old (next_align a sg) sgs) ds)
      ∙ fetch-cut use_64 mem old a (cuts use_64 old (next_align a sg) sgs ++ ds) sg v (omega arith)
          (step.0)
      ∙ ap (◌++◌ sg.bytes) (fetch-cuts (next_align a sg) sgs vs (step.1) (step.2))
      ∙ sym (append_assoc sg.bytes (all_bytes sgs) (fetch use_64 mem ds))

-- Marking a descriptor does not change what it transfers.
has_tran-mark : (cmd : ℕ) → has (bit_or cmd adma2_end) 0x20 ≡ has cmd 0x20
has_tran-mark cmd =
    has-bit 5 (bit_or cmd adma2_end)
    ∙ ap (λ (t : ℕ). t == 1)
        (bit-bit_or 5 cmd adma2_end ∙ larger (bit cmd 5) (bit adma2_end 5) (unfold bit in refl))
    ∙ sym (has-bit 5 cmd)
  where
    larger : (a b : ℕ) → b ≡ 0 → max a b ≡ a
    larger a b e = omega arith

fetch-cons :
    (use_64 : Bool) (mem : ℕ → ℕ) (d : Desc) (xs ys : List Desc)
    → fetch use_64 mem xs ≡ fetch use_64 mem ys
    → fetch use_64 mem (d ∷ xs) ≡ fetch use_64 mem (d ∷ ys)
unfolding fetch
fetch-cons use_64 mem d xs ys e =
    ap
      (λ (r : List ℕ).
        (if has d.cmd 0x20 then read_mem mem (desc_addr use_64 d) (desc_len d) else [])
        ++ (if has d.cmd adma2_end then [] else r))
      e

fetch-nop_end :
    (use_64 : Bool) (mem : ℕ → ℕ) (old : ℕ)
    → fetch use_64 mem (adma_write_desc use_64 old 0 0 adma2_nop_end_valid ∷ []) ≡ []
unfolding fetch has adma_write_desc
fetch-nop_end use_64 mem old = refl

fetch-mark_last :
    (use_64 : Bool) (mem : ℕ → ℕ) (descs : List Desc)
    → fetch use_64 mem (mark_last descs) ≡ fetch use_64 mem descs
unfolding mark_last
fetch-mark_last use_64 mem [] = refl
fetch-mark_last use_64 mem (d ∷ []) =
    unfold fetch adma_mark_end in
    ap₂ ◌++◌
      (ap (λ (b : Bool). if b then read_mem mem (desc_addr use_64 d) (desc_len d) else [])
        (has_tran-mark d.cmd))
      (nothing (has (bit_or d.cmd adma2_end) adma2_end) ∙ sym (nothing (has d.cmd adma2_end)))
  where
    nothing : (b : Bool) → ◌≡◌ {A = List ℕ} (if b then [] else []) []
    nothing true = refl
    nothing false = refl
fetch-mark_last use_64 mem (d ∷ e ∷ ds) =
    fetch-cons use_64 mem d (mark_last (e ∷ ds)) (e ∷ ds) (fetch-mark_last use_64 mem (e ∷ ds))

-- For a write whose entries are each mapped, of at most 65536 bytes and not shorter than their
-- unaligned head, with addresses that fit the controller, and with the align buffer in the memory,
-- the controller that follows the table fetches the bytes of the scatter list in order.
pub fetch-adma_table_pre :
    (no_endattr use_64 : Bool) (mem : ℕ → ℕ) (old align_addr : ℕ) (sgs : List Sg)
    → AllMapped use_64 mem sgs
    → align_addr + 4 * length sgs ≤ limit use_64
    → Holds mem align_addr (adma_table_pre no_endattr use_64 true old align_addr sgs).1.align
    → fetch use_64 mem (adma_table_pre no_endattr use_64 true old align_addr sgs).0 ≡ all_bytes sgs
unfolding adma_table_pre start_table fetch
fetch-adma_table_pre no_endattr use_64 mem old align_addr sgs v room held =
    ap (λ (t : List Desc). fetch use_64 mem (finish no_endattr use_64 old t)) table
    ∙ ended no_endattr
  where
    start : Table
    start = record { descs = []; align_addr = align_addr; align = [] }

    table : (add_sgs use_64 true old start sgs).descs ≡ cuts use_64 old align_addr sgs
    table = add_sgs-descs use_64 true old start sgs

    covered :
        (ds : List Desc)
        → fetch use_64 mem (cuts use_64 old align_addr sgs ++ ds)
          ≡ all_bytes sgs ++ fetch use_64 mem ds
    covered ds =
        fetch-cuts use_64 mem old ds align_addr sgs v room
          (subst (Holds mem align_addr) (add_sgs-align use_64 old start sgs) held)

    ended :
        (b : Bool)
        → fetch use_64 mem (finish b use_64 old (cuts use_64 old align_addr sgs)) ≡ all_bytes sgs
    ended true =
        unfold finish in
        fetch-mark_last use_64 mem (cuts use_64 old align_addr sgs)
        ∙ ap (fetch use_64 mem) (sym (append-nil (cuts use_64 old align_addr sgs)))
        ∙ covered []
        ∙ append-nil (all_bytes sgs)
    ended false =
        unfold finish in
        covered (adma_write_desc use_64 old 0 0 adma2_nop_end_valid ∷ [])
        ∙ ap (◌++◌ (all_bytes sgs)) (fetch-nop_end use_64 mem old)
        ∙ append-nil (all_bytes sgs)
