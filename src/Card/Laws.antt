-- ===== src/Card/Laws.antt =====
-- The bus width in the control register, and the samples of the write-protect switch.
use linux_sdhci_rtt.Base.{
  ℕ, zero, suc, ◌+◌, ◌≤◌, ◌≡◌, refl, ap, ◌∙◌, sym, ◌⊎◌, inl, inr, bit_or, Bool, true, false,
  if◌then◌else◌, has, clear, ltb, ◌==◌, arith, tests, Bool-cases, bit, bit-le, bit-bit_or,
  bit-bit_and, has-bit,
}
use linux_sdhci_rtt.Regs.{quirk_unstable_ro_detect, ctrl_4bitbus, ctrl_8bitbus}
use linux_sdhci_rtt.Device.{Device}
use linux_sdhci_rtt.Card.{get_ro, Lines, width_bits, check_ro, sample_ro}

-- The width that a controller reads in its control register.
abbrev pub width_of : ℕ → Lines
width_of ctrl =
    if has ctrl ctrl_8bitbus
    then Lines.eight
    else if has ctrl ctrl_4bitbus
    then Lines.four
    else Lines.one

width_of_bits :
    (x a b : ℕ)
    → bit x 5 ≡ a
    → bit x 1 ≡ b
    → width_of x ≡ (if a == 1 then Lines.eight else if b == 1 then Lines.four else Lines.one)
width_of_bits x a b p q = ground (arith, has-bit 5 x, has-bit 1 x, p, q)

bits-clear_8bit :
    (x : ℕ) → (bit (clear 8 x ctrl_8bitbus) 5 ≡ 0) × (bit (clear 8 x ctrl_8bitbus) 1 ≡ bit x 1)
unfolding clear bit
bits-clear_8bit x = ground (arith, bit-bit_and 5 x 223, bit-bit_and 1 x 223, bit-le 5 x, bit-le 1 x)

bits-clear_4bit :
    (x : ℕ) → (bit (clear 8 x ctrl_4bitbus) 1 ≡ 0) × (bit (clear 8 x ctrl_4bitbus) 5 ≡ bit x 5)
unfolding clear bit
bits-clear_4bit x = ground (arith, bit-bit_and 5 x 253, bit-bit_and 1 x 253, bit-le 5 x, bit-le 1 x)

-- The rounds that find the card read-only, of the next ones.
abbrev pub ro_rounds : ℕ → Device → ℕ
ro_rounds zero d = 0
ro_rounds (suc n) d = let (ro, d1) = check_ro d in (if ro then 1 else 0) + ro_rounds n d1

sample_ro-majority :
    (samples ro_count : ℕ) (d : Device)
    → ro_count ≤ 2
    → (sample_ro samples ro_count d).0 ≡ ltb 2 (ro_count + ro_rounds samples d)
unfolding sample_ro
sample_ro-majority zero ro_count d le = ground arith
sample_ro-majority (suc samples) ro_count d le =
    counted (check_ro d).0 (Bool-cases (ltb 2 (ro_count + 1)))
      (λ more. sample_ro-majority samples (ro_count + 1) (check_ro d).1 more)
      (sample_ro-majority samples ro_count (check_ro d).1 le)
  where
    at_most : (n : ℕ) → ltb 2 (ro_count + 1) ≡ true → ltb 2 (ro_count + (1 + n)) ≡ true
    at_most n over = grind tests

    counted :
        (ro : Bool)
        → (ltb 2 (ro_count + 1) ≡ true) ⊎ (ltb 2 (ro_count + 1) ≡ false)
        → (ro_count + 1 ≤ 2
            → (sample_ro samples (ro_count + 1) (check_ro d).1).0
              ≡ ltb 2 (ro_count + 1 + ro_rounds samples (check_ro d).1))
        → (sample_ro samples ro_count (check_ro d).1).0
          ≡ ltb 2 (ro_count + ro_rounds samples (check_ro d).1)
        → (elim ro as (λ x. Bool × Device) [
          | true ↦ elim (ltb 2 (ro_count + 1)) as (λ x. Bool × Device) [
            | true ↦ (true, (check_ro d).1)
            | false ↦ sample_ro samples (ro_count + 1) (check_ro d).1
          ]
          | false ↦ sample_ro samples ro_count (check_ro d).1
        ]).0
          ≡ ltb 2 (ro_count + ((if ro then 1 else 0) + ro_rounds samples (check_ro d).1))
    counted false c more rest = rest ∙ ap (ltb 2) (omega arith)
    counted true (inl over) more rest =
        rw over (sym (at_most (ro_rounds samples (check_ro d).1) over))
    counted true (inr under) more rest = rw under (more (omega tests) ∙ ap (ltb 2) (omega arith))

bits-set_8bit : (x : ℕ) → bit (bit_or x ctrl_8bitbus) 5 ≡ 1
unfolding bit
bits-set_8bit x = omega (arith, bit-bit_or 5 x 0x20, bit-le 5 x)

bits-set_4bit :
    (x : ℕ) → (bit (bit_or x ctrl_4bitbus) 1 ≡ 1) × (bit (bit_or x ctrl_4bitbus) 5 ≡ bit x 5)
unfolding bit
bits-set_4bit x = omega (arith, bit-bit_or 5 x 2, bit-bit_or 1 x 2, bit-le 1 x, bit-le 5 x)

-- The eighth-bit flag is gone, by the capability or from the start.
narrowed :
    (caps8 : Bool) (ctrl : ℕ)
    → (caps8 ≡ true) ⊎ (bit ctrl 5 ≡ 0)
    → bit (if caps8 then clear 8 ctrl ctrl_8bitbus else ctrl) 5 ≡ 0
narrowed true ctrl h = (bits-clear_8bit ctrl).0
narrowed false ctrl h = ground arith

-- The register value of sdhci_set_bus_width tells the width, for a controller that has eight data
-- lines or whose register does not say so already.
width_of-width_bits :
    (caps8 : Bool) (width : Lines) (ctrl : ℕ)
    → (caps8 ≡ true) ⊎ (bit ctrl 5 ≡ 0)
    → width_of (width_bits caps8 width ctrl) ≡ width
unfolding width_bits
width_of-width_bits caps8 Lines.eight ctrl h =
    let x = bit_or (clear 8 ctrl ctrl_4bitbus) ctrl_8bitbus in
    width_of_bits x 1 (bit x 1) (bits-set_8bit (clear 8 ctrl ctrl_4bitbus)) refl
width_of-width_bits caps8 Lines.four ctrl h =
    let y = if caps8 then clear 8 ctrl ctrl_8bitbus else ctrl in
    width_of_bits (bit_or y ctrl_4bitbus) 0 1 ((bits-set_4bit y).1 ∙ narrowed caps8 ctrl h)
      (bits-set_4bit y).0
width_of-width_bits caps8 Lines.one ctrl h =
    let y = if caps8 then clear 8 ctrl ctrl_8bitbus else ctrl in
    width_of_bits (clear 8 y ctrl_4bitbus) 0 0 ((bits-clear_4bit y).1 ∙ narrowed caps8 ctrl h)
      (bits-clear_4bit y).0

-- sdhci_get_ro with an unstable switch says that the card is read-only when three of its five samples
-- do, though it stops at the third.
pub get_ro-majority :
    (d : Device)
    → has d.quirks quirk_unstable_ro_detect ≡ true
    → (get_ro d).0 ≡ ltb 2 (ro_rounds 5 d)
unfolding get_ro
get_ro-majority d unstable =
    rw unstable (sample_ro-majority 5 0 d (omega arith) ∙ ap (ltb 2) (omega arith))
