-- ===== src/Adma/Fetch.antt =====
-- What a controller fetches through the table that sdhci_adma_table_pre builds for a write.
use mathlib.Core.List.{append_assoc}
use linux_sdhci_rtt.Base.{
  ℕ, zero, suc, ◌+◌, ◌-◌, ◌*◌, ◌^◌, ◌≤◌, ◌<◌, ◌≡◌, refl, ap, ap₂, sym, ◌∙◌, Bool, true, false, List,
  [], ◌∷◌, ◌++◌, ◌==◌, if◌then◌else◌, has, u64, length, take, arith, suc-==_zero,
}
use linux_sdhci_rtt.Regs.{adma2_tran_valid, adma2_end}
use linux_sdhci_rtt.Adma.{Desc, Sg, adma_write_desc, align_offset, head_descs, body_descs, rest_len}
use linux_sdhci_rtt.Adma.Shape.{align_offset-lt}

-- The bytes of the memory from an address on.
unfoldable pub read_mem : (ℕ → ℕ) → ℕ → ℕ → List ℕ
read_mem mem a zero = []
read_mem mem a (suc n) = mem a ∷ read_mem mem (a + 1) n

-- The fields of a descriptor as the controller reads them: the length 0 stands for 65536.
unfoldable pub desc_len : Desc → ℕ
desc_len d = if d.len == 0 then 65536 else d.len

unfoldable pub desc_addr : Bool → Desc → ℕ
desc_addr use_64 d = if use_64 then d.addr_lo + d.addr_hi * 2 ^ 32 else d.addr_lo

-- The controller goes through the descriptors, transfers what those marked TRAN describe, and
-- stops behind one that is marked END.
unfoldable pub fetch : Bool → (ℕ → ℕ) → List Desc → List ℕ
unfolding read_mem desc_len desc_addr
fetch use_64 mem [] = []
fetch use_64 mem (d ∷ ds) =
    let rest = fetch use_64 mem ds in
    (if has d.cmd 0x20 then read_mem mem (desc_addr use_64 d) (desc_len d) else [])
    ++ (if has d.cmd adma2_end then [] else rest)

-- The addresses of a controller: 32 or 64 bits.
abbrev pub limit : Bool → ℕ
limit true = 2 ^ 64
limit false = 2 ^ 32

-- An entry that the table can describe, and whose bytes are in the memory.
pub record IsMapped (use_64 : Bool) (mem : ℕ → ℕ) (sg : Sg) : Type 0 where
  pub covers : align_offset sg.dma_address ≤ sg.length
  pub fits : sg.length ≤ 65536
  pub below : sg.dma_address + sg.length ≤ limit use_64
  pub stored : read_mem mem sg.dma_address sg.length ≡ sg.bytes

abbrev pub AllMapped : Bool → (ℕ → ℕ) → List Sg → Type 0
AllMapped use_64 mem [] = Unit {0}
AllMapped use_64 mem (sg ∷ sgs) = IsMapped use_64 mem sg × AllMapped use_64 mem sgs

-- The words of the align buffer, in the memory.
abbrev pub Holds : (ℕ → ℕ) → ℕ → List (List ℕ) → Type 0
Holds mem a [] = Unit {0}
Holds mem a (w ∷ ws) = (read_mem mem a (length w) ≡ w) × Holds mem (a + 4) ws

abbrev pub all_bytes : List Sg → List ℕ
all_bytes [] = []
all_bytes (sg ∷ sgs) = sg.bytes ++ all_bytes sgs

pub read_mem-append :
    (mem : ℕ → ℕ) (a m n : ℕ) → read_mem mem a (m + n) ≡ read_mem mem a m ++ read_mem mem (a + m) n
unfolding read_mem
read_mem-append mem a zero n = ap₂ (read_mem mem) (same a) (none_left n)
  where
    same : (a : ℕ) → a ≡ a + 0
    same a = omega arith

    none_left : (n : ℕ) → 0 + n ≡ n
    none_left n = omega arith
read_mem-append mem a (suc m) n =
    ap (read_mem mem a) (next m n)
    ∙ ap (◌∷◌ (mem a)) (
        read_mem-append mem (a + 1) m n
        ∙ ap (λ (t : ℕ). read_mem mem (a + 1) m ++ read_mem mem t n) (shift a m))
  where
    next : (m n : ℕ) → suc m + n ≡ suc (m + n)
    next m n = omega arith

    shift : (a m : ℕ) → a + 1 + m ≡ a + suc m
    shift a m = omega arith

take-read_mem : (mem : ℕ → ℕ) (a m n : ℕ) → m ≤ n → take m (read_mem mem a n) ≡ read_mem mem a m
unfolding read_mem
take-read_mem mem a zero n h = refl
take-read_mem mem a (suc m) zero h = absurd (omega arith)
take-read_mem mem a (suc m) (suc n) h =
    ap (◌∷◌ (mem a)) (take-read_mem mem (a + 1) m n (omega arith))

pub length-read_mem : (mem : ℕ → ℕ) (a n : ℕ) → length (read_mem mem a n) ≡ n
unfolding read_mem
length-read_mem mem a zero = refl
length-read_mem mem a (suc n) = ap suc (length-read_mem mem (a + 1) n)

-- A descriptor that was written reads back.
pub desc_len-write :
    (use_64 : Bool) (old addr len : ℕ)
    → 1 ≤ len
    → len ≤ 65536
    → desc_len (adma_write_desc use_64 old addr len adma2_tran_valid) ≡ len
unfolding desc_len adma_write_desc
desc_len-write use_64 old addr len pos fits = ground arith

pub desc_addr-write :
    (use_64 : Bool) (old addr len : ℕ)
    → addr < limit use_64
    → desc_addr use_64 (adma_write_desc use_64 old addr len adma2_tran_valid) ≡ addr
unfolding desc_addr adma_write_desc
desc_addr-write true old addr len below = omega arith
desc_addr-write false old addr len below = omega arith

pub fetch-tran :
    (use_64 : Bool) (mem : ℕ → ℕ) (old addr len : ℕ) (ds : List Desc)
    → 1 ≤ len
    → len ≤ 65536
    → addr < limit use_64
    → fetch use_64 mem (adma_write_desc use_64 old addr len adma2_tran_valid ∷ ds)
      ≡ read_mem mem addr len ++ fetch use_64 mem ds
unfolding fetch has adma_write_desc
fetch-tran use_64 mem old addr len ds pos fits below =
    ap (λ (t : List ℕ). t ++ fetch use_64 mem ds)
      (ap₂ (read_mem mem) (desc_addr-write use_64 old addr len below)
        (desc_len-write use_64 old addr len pos fits))

-- One descriptor: the align buffer has its unaligned bytes.
module _ (use_64 : Bool) (mem : ℕ → ℕ) (old align_addr : ℕ) (ds : List Desc) where
  fetch-head :
      (offset : ℕ)
      → offset < 4
      → align_addr < limit use_64
      → fetch use_64 mem (head_descs use_64 old align_addr offset ++ ds)
        ≡ read_mem mem align_addr offset ++ fetch use_64 mem ds
  unfolding head_descs read_mem
  fetch-head zero lt below = refl
  fetch-head (suc offset) lt below =
      rw (suc-==_zero offset)
        (fetch-tran use_64 mem old align_addr (suc offset) ds (omega arith) (omega arith) below)

  fetch-body :
      (addr len : ℕ)
      → len ≤ 65536
      → (1 ≤ len → addr < limit use_64)
      → fetch use_64 mem (body_descs use_64 old addr len ++ ds)
        ≡ read_mem mem addr len ++ fetch use_64 mem ds
  unfolding body_descs read_mem
  fetch-body addr zero fits below = refl
  fetch-body addr (suc len) fits below =
      rw (suc-==_zero len)
        (fetch-tran use_64 mem old addr (suc len) ds (omega arith) fits (below (omega arith)))

abbrev pub cut : Bool → ℕ → ℕ → Sg → List Desc
cut use_64 old align_addr sg =
    let offset = align_offset sg.dma_address in
    head_descs use_64 old align_addr offset
    ++ body_descs use_64 old (u64 (sg.dma_address + offset)) (rest_len sg.length offset)

rest_len-sub : (len offset : ℕ) → offset ≤ len → len ≤ 65536 → rest_len len offset ≡ len - offset
unfolding rest_len
rest_len-sub len offset le fits = ground arith

limit-le : (use_64 : Bool) → limit use_64 ≤ 2 ^ 64
limit-le true = omega arith
limit-le false = omega arith

pub fetch-cut :
    (use_64 : Bool) (mem : ℕ → ℕ) (old align_addr : ℕ) (ds : List Desc) (sg : Sg)
    → IsMapped use_64 mem sg
    → align_addr < limit use_64
    → read_mem mem align_addr (align_offset sg.dma_address)
      ≡ take (align_offset sg.dma_address) sg.bytes
    → fetch use_64 mem (cut use_64 old align_addr sg ++ ds) ≡ sg.bytes ++ fetch use_64 mem ds
fetch-cut use_64 mem old align_addr ds sg v below aligned =
    let offset = align_offset sg.dma_address in
    let addr = u64 (sg.dma_address + offset) in
    let len = rest_len sg.length offset in
    ap (fetch use_64 mem)
      (append_assoc (head_descs use_64 old align_addr offset) (body_descs use_64 old addr len) ds)
    ∙ fetch-head use_64 mem old align_addr (body_descs use_64 old addr len ++ ds) offset
        (align_offset-lt sg.dma_address) below
    ∙ ap (λ (t : List ℕ). read_mem mem align_addr offset ++ t)
        (fetch-body use_64 mem old align_addr ds addr len (omega (arith, rest))
          (λ h. omega (arith, rest, plain)))
    ∙ sym (
        append_assoc (read_mem mem align_addr offset) (read_mem mem addr len) (fetch use_64 mem ds))
    ∙ ap (λ (t : List ℕ). t ++ fetch use_64 mem ds) joined
  where
    rest :
        rest_len sg.length (align_offset sg.dma_address) ≡ sg.length - align_offset sg.dma_address
    rest = rest_len-sub sg.length (align_offset sg.dma_address) v.covers v.fits

    plain :
        u64 (sg.dma_address + align_offset sg.dma_address)
        ≤ sg.dma_address + align_offset sg.dma_address
    plain = omega arith

    same :
        1 ≤ sg.length - align_offset sg.dma_address
        → u64 (sg.dma_address + align_offset sg.dma_address)
          ≡ sg.dma_address + align_offset sg.dma_address
    same h = omega (arith, limit-le use_64, v.below, v.covers)

    -- The rest of the entry, read in one piece.
    tail_bytes :
        (n : ℕ)
        → n ≡ sg.length - align_offset sg.dma_address
        → read_mem mem (u64 (sg.dma_address + align_offset sg.dma_address)) n
          ≡ read_mem mem (sg.dma_address + align_offset sg.dma_address) n
    tail_bytes zero e = unfold read_mem in refl
    tail_bytes (suc n) e = ap (λ (a : ℕ). read_mem mem a (suc n)) (same (omega arith))

    whole : align_offset sg.dma_address + (sg.length - align_offset sg.dma_address) ≡ sg.length
    whole = omega (arith, v.covers)

    joined :
        read_mem mem align_addr (align_offset sg.dma_address)
          ++ read_mem mem
              (u64 (sg.dma_address + align_offset sg.dma_address))
              (rest_len sg.length (align_offset sg.dma_address))
        ≡ sg.bytes
    joined =
        ap₂ ◌++◌
          (aligned
            ∙ ap (take (align_offset sg.dma_address)) (sym v.stored)
            ∙ take-read_mem mem sg.dma_address (align_offset sg.dma_address) sg.length v.covers)
          (tail_bytes _ rest
            ∙ ap (read_mem mem (sg.dma_address + align_offset sg.dma_address)) rest)
        ∙ sym (
            read_mem-append mem sg.dma_address (align_offset sg.dma_address)
              (sg.length - align_offset sg.dma_address))
        ∙ ap (read_mem mem sg.dma_address) whole
        ∙ v.stored
