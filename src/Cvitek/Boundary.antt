-- ===== src/Cvitek/Boundary.antt =====
-- cvi_adma_write_desc of platform/cvitek/sdhci-cv181x.c: the boundaries of 128 MiB.
use mathlib.Core.List.{append-nil}
use native.Mathlib.Nat.{pow-suc, one-le-pow}
use linux_sdhci_rtt.Base.{
  ℕ, zero, suc, ◌+◌, ◌-◌, ◌*◌, ◌/◌, ◌%◌, ◌^◌, ◌≤◌, ◌<◌, ◌≡◌, refl, ap, sym, ◌∙◌, Bool, true, false,
  ◌||◌, List, [], ◌∷◌, ◌++◌, ◌==◌, u64, bit_and, bit_or, arith, tests, bit_or_low, bit_or_step,
  bit_and_low, inl, inr, Bool-cases, if_case, ==→eq, leb,
}
use linux_sdhci_rtt.Regs.{adma2_tran_valid}
use linux_sdhci_rtt.Adma.{Desc, adma_write_desc}
use linux_sdhci_rtt.Adma.Fetch.{
  desc_len, desc_addr, fetch, read_mem, read_mem-append, limit, desc_len-write, desc_addr-write,
  fetch-tran,
}
use linux_sdhci_rtt.Cvitek.{boundary_ok, cvi_adma_write_desc, sz_128m}

-- The bytes of a descriptor lie in one block of 128 MiB.
abbrev pub InBlock : Bool → Desc → Type 0
InBlock use_64 d =
    desc_addr use_64 d / 0x8000000 ≡ (desc_addr use_64 d + desc_len d - 1) / 0x8000000

abbrev pub AllInBlock : Bool → List Desc → Type 0
AllInBlock use_64 [] = Unit {0}
AllInBlock use_64 (d ∷ ds) = InBlock use_64 d × AllInBlock use_64 ds

bit_or-full : (k r : ℕ) → r < 2 ^ k → bit_or r (2 ^ k - 1) ≡ 2 ^ k - 1
bit_or-full zero zero lt = refl
bit_or-full zero (suc r) lt = absurd (omega arith)
bit_or-full (suc k) r lt = omega (
  arith,
  bit_or_step r (2 ^ suc k - 1),
  ap (λ (t : ℕ). bit_or (r / 2) t) half,
  pow-suc 2 k,
  one-le-pow k 2,
  bit_or-full k (r / 2) (omega (arith, pow-suc 2 k)),
)
  where
    half : (2 ^ suc k - 1) / 2 ≡ 2 ^ k - 1
    half = omega (arith, pow-suc 2 k, one-le-pow k 2)

-- `a | (SZ_128M - 1)` is the last address of the block of `a`.
last_of_block : (a : ℕ) → bit_or a (sz_128m - 1) ≡ a / 0x8000000 * 0x8000000 + 0x7ffffff
last_of_block a =
    ap (λ (t : ℕ). bit_or t 0x7ffffff) (split a)
    ∙ bit_or_low 27 (a / 0x8000000) (a % 0x8000000) 0x7ffffff (omega arith) (omega arith)
    ∙ ap (λ (t : ℕ). a / 0x8000000 * 0x8000000 + t) (bit_or-full 27 (a % 0x8000000) (omega arith))
  where
    split : (a : ℕ) → a ≡ a / 0x8000000 * 0x8000000 + a % 0x8000000
    split a = omega arith

boundary_ok_lem :
    (addr len : ℕ)
    → 1 ≤ len
    → addr + len ≤ 2 ^ 64
    → boundary_ok addr len ≡ (addr / 0x8000000 == (addr + len - 1) / 0x8000000)
unfolding boundary_ok
boundary_ok_lem addr len pos below =
    ground (arith, last_of_block addr, last_of_block (u64 (addr + len - 1)), whole)
  where
    whole : u64 (addr + len - 1) ≡ addr + len - 1
    whole = omega arith

written-InBlock :
    (use_64 : Bool) (old addr len : ℕ)
    → 1 ≤ len
    → len ≤ 65536
    → addr < limit use_64
    → addr / 0x8000000 ≡ (addr + len - 1) / 0x8000000
    → InBlock use_64 (adma_write_desc use_64 old addr len adma2_tran_valid)
written-InBlock use_64 old addr len pos fits below same =
    rw (desc_addr-write use_64 old addr len below, desc_len-write use_64 old addr len pos fits) same

limit-le : (use_64 : Bool) → limit use_64 ≤ 2 ^ 64
limit-le true = omega arith
limit-le false = omega arith

-- Entries as the driver makes them: not empty, at most 64 KiB, and below the end of the addresses.
module _ (use_64 : Bool) (old addr len : ℕ) (pos : 1 ≤ len) (fits : len ≤ 65536)
    (below : addr + len ≤ limit use_64) where
  -- What is before the boundary.
  abbrev head : ℕ
  head = sz_128m - bit_and addr (sz_128m - 1)

  head_lem : head ≡ 0x8000000 - addr % 0x8000000
  head_lem = ap (λ (t : ℕ). 0x8000000 - t) (bit_and_low 27 addr)

  abbrev one_desc : List Desc
  one_desc = adma_write_desc use_64 old addr len adma2_tran_valid ∷ []

  abbrev two_descs : List Desc
  two_descs =
      adma_write_desc use_64 old addr head adma2_tran_valid
      ∷ adma_write_desc use_64 old (u64 (addr + head)) (len - head) adma2_tran_valid
      ∷ []

  -- The code writes one or the other.
  split_cases :
      (P : List Desc → Type 0)
      → (addr / 0x8000000 ≡ (addr + len - 1) / 0x8000000 → P one_desc)
      → ((addr / 0x8000000 ≡ (addr + len - 1) / 0x8000000 → ⊥) → P two_descs)
      → P (cvi_adma_write_desc use_64 old addr len adma2_tran_valid)
  unfolding cvi_adma_write_desc
  split_cases P one two =
      if_case P ((len == 0) || boundary_ok addr len)
        (λ whole. one (
          ==→eq _ _ (
            sym (boundary_ok_lem addr len pos (omega (arith, limit-le use_64)))
            ∙ not_empty len pos whole)))
        (λ cross. two (λ e.
          ground (arith, cross, e, boundary_ok_lem addr len pos (omega (arith, limit-le use_64)))))
    where
      not_empty :
          (n : ℕ) → 1 ≤ n → ((n == 0) || boundary_ok addr len) ≡ true → boundary_ok addr len ≡ true
      not_empty n pos h = ground (arith, h)

  -- Where the bytes cross a boundary, there are some on both sides.
  head-lt : (addr / 0x8000000 ≡ (addr + len - 1) / 0x8000000 → ⊥) → (1 ≤ head) × (head < len)
  head-lt cross = elim (Bool-cases (leb len head)) [
    | inl inside ↦ absurd (cross (omega (tests, head_lem)))
    | inr beyond ↦ (omega (arith, head_lem), omega tests)
  ]

  tail_addr : head < len → u64 (addr + head) ≡ addr + head
  tail_addr lt = omega (arith, limit-le use_64)

  -- For an entry that is not empty, at most 64 KiB and below the end of the addresses, every descriptor that
  -- cvi_adma_write_desc writes stays within a block of 128 MiB.
  pub cvi_adma_write_desc-InBlock :
      AllInBlock use_64 (cvi_adma_write_desc use_64 old addr len adma2_tran_valid)
  cvi_adma_write_desc-InBlock =
      split_cases (AllInBlock use_64)
        (λ same. (written-InBlock use_64 old addr len pos fits (omega arith) same, tt))
        (λ cross.
          let (some_head, lt) = head-lt cross in
          (
            written-InBlock use_64 old addr head some_head (omega arith) (omega arith)
                (omega (arith, head_lem)),
            (
              written-InBlock use_64 old (u64 (addr + head)) (len - head) (omega arith)
                  (omega arith) (omega (arith, tail_addr lt))
                  (ground (arith, tail_addr lt, head_lem)),
              tt,
            ),
          ))

  -- For an entry that is not empty, at most 64 KiB and below the end of the addresses, a controller fetches through the
  -- descriptors that cvi_adma_write_desc writes the bytes of the entry, in order.
  pub fetch-cvi_adma_write_desc :
      (mem : ℕ → ℕ)
      → fetch use_64 mem (cvi_adma_write_desc use_64 old addr len adma2_tran_valid)
        ≡ read_mem mem addr len
  unfolding fetch
  fetch-cvi_adma_write_desc mem =
      split_cases (λ ds. fetch use_64 mem ds ≡ read_mem mem addr len)
        (λ same. fetch-tran use_64 mem old addr len [] pos fits (omega arith) ∙ append-nil _)
        (λ cross.
          let (some_head, lt) = head-lt cross in
          fetch-tran use_64 mem old addr head
            (adma_write_desc use_64 old (u64 (addr + head)) (len - head) adma2_tran_valid ∷ [])
            some_head (omega arith) (omega arith)
          ∙ ap (λ (t : List ℕ). read_mem mem addr head ++ t)
              (fetch-tran use_64 mem old (u64 (addr + head)) (len - head) [] (omega arith)
                  (omega arith) (omega (arith, tail_addr lt))
                ∙ append-nil _
                ∙ ap (λ (t : ℕ). read_mem mem t (len - head)) (tail_addr lt))
          ∙ sym (read_mem-append mem addr head (len - head))
          ∙ ap (read_mem mem addr) (whole head lt))
    where
      whole : (n : ℕ) → n < len → n + (len - n) ≡ len
      whole n lt = omega arith
