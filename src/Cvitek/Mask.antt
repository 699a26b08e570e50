-- ===== src/Cvitek/Mask.antt =====
-- SET_MASK_BIT and CHECK_MASK_BIT of platform/cvitek/sdhci-cv181x.c against each other.
use native.Mathlib.Nat.{pow-suc}
use linux_sdhci_rtt.Base.{
  ℕ, zero, suc, ◌+◌, ◌*◌, ◌^◌, ◌/◌, ◌%◌, ◌<◌, ◌≡◌, refl, ap, ◌∙◌, sym, bit_and, bit_or, Bool, true,
  false, not, List, [], ◌∷◌, ◌==◌, ◌<<<◌, u8, arith, length, replicate, bit, bit-bit_or, bit-le,
  bit-zero, bit-low, has, has-bit, inl, inr, ◌⊎◌, Bool-cases, ==→eq, not-==→ne,
}
use linux_sdhci_rtt.Cvitek.{check_mask_bit, set_mask_bit, byte_at, or_byte, no_marks}

-- Whether a bit of the mask is set.
unfoldable pub marked : List ℕ → ℕ → Bool
marked mask i = not (check_mask_bit mask i == 0)

bit-u8 : (j a : ℕ) → j < 8 → bit (u8 a) j ≡ bit a j
bit-u8 j a lt = sym (bit-low 8 j (a / 2 ^ 8) (u8 a) lt) ∙ ap (λ (t : ℕ). bit t j) whole
  where
    whole : a / 2 ^ 8 * 2 ^ 8 + u8 a ≡ a
    whole = omega arith

bit-pow_self : (k : ℕ) → bit (1 * 2 ^ k) k ≡ 1
unfolding bit
bit-pow_self zero = refl
bit-pow_self (suc k) = ap (λ (t : ℕ). bit t k) (half k) ∙ bit-pow_self k
  where
    half : (k : ℕ) → 1 * 2 ^ suc k / 2 ≡ 1 * 2 ^ k
    half k = omega (arith, pow-suc 2 k)

bit-pow_ne : (j k : ℕ) → (j ≡ k → ⊥) → bit (1 * 2 ^ k) j ≡ 0
unfolding bit
bit-pow_ne zero zero ne = absurd (ne refl)
bit-pow_ne zero (suc k) ne = omega (arith, pow-suc 2 k)
bit-pow_ne (suc j) zero ne = bit-zero j
bit-pow_ne (suc j) (suc k) ne =
    ap (λ (t : ℕ). bit t j) (half k) ∙ bit-pow_ne j k (λ e. ne (ap suc e))
  where
    half : (k : ℕ) → 1 * 2 ^ suc k / 2 ≡ 1 * 2 ^ k
    half k = omega (arith, pow-suc 2 k)

byte-or_byte :
    (n m : ℕ) (mask : List ℕ)
    → n < length mask
    → byte_at n (or_byte n m mask) ≡ u8 (bit_or (byte_at n mask) m)
byte-or_byte n m [] lt = absurd (omega arith)
byte-or_byte zero m (b ∷ bs) lt = refl
byte-or_byte (suc n) m (b ∷ bs) lt = byte-or_byte n m bs (omega arith)

byte-or_byte_ne :
    (n k m : ℕ) (mask : List ℕ) → (n ≡ k → ⊥) → byte_at n (or_byte k m mask) ≡ byte_at n mask
byte-or_byte_ne n k m [] ne = refl
byte-or_byte_ne zero zero m (b ∷ bs) ne = absurd (ne refl)
byte-or_byte_ne zero (suc k) m (b ∷ bs) ne = refl
byte-or_byte_ne (suc n) zero m (b ∷ bs) ne = refl
byte-or_byte_ne (suc n) (suc k) m (b ∷ bs) ne = byte-or_byte_ne n k m bs (λ e. ne (ap suc e))

-- The bit of a mask that `marked` tells.
marked-bit : (mask : List ℕ) (i : ℕ) → marked mask i ≡ (bit (byte_at (i / 8) mask) (i % 8) == 1)
unfolding marked check_mask_bit has
marked-bit mask i =
    ap (λ (t : ℕ). not (bit_and (byte_at (i / 8) mask) t == 0)) one
    ∙ has-bit (i % 8) (byte_at (i / 8) mask)
  where
    one : 1 * 2 ^ (i % 8) ≡ 2 ^ (i % 8)
    one = omega arith

length-or_byte : (n m : ℕ) (mask : List ℕ) → length (or_byte n m mask) ≡ length mask
length-or_byte n m [] = refl
length-or_byte zero m (b ∷ bs) = refl
length-or_byte (suc n) m (b ∷ bs) = ap suc (length-or_byte n m bs)

pub length-set_mask_bit : (mask : List ℕ) (i : ℕ) → length (set_mask_bit mask i) ≡ length mask
unfolding set_mask_bit
length-set_mask_bit mask i = length-or_byte (i / 8) (1 <<< (i % 8)) mask

-- A bit that is set is marked.
pub marked-set_mask_bit_self :
    (mask : List ℕ) (i : ℕ) → i / 8 < length mask → marked (set_mask_bit mask i) i ≡ true
unfolding set_mask_bit
marked-set_mask_bit_self mask i lt =
    marked-bit (set_mask_bit mask i) i
    ∙ ground (
      arith,
      byte-or_byte (i / 8) (1 <<< (i % 8)) mask lt,
      bit-u8 (i % 8) (bit_or (byte_at (i / 8) mask) (1 <<< (i % 8))) (omega arith),
      bit-bit_or (i % 8) (byte_at (i / 8) mask) (1 <<< (i % 8)),
      bit-pow_self (i % 8),
      bit-le (i % 8) (byte_at (i / 8) mask),
    )

-- Every other bit keeps its mark.
pub marked-set_mask_bit_ne :
    (mask : List ℕ) (i j : ℕ)
    → i / 8 < length mask
    → (j ≡ i → ⊥)
    → marked (set_mask_bit mask i) j ≡ marked mask j
unfolding set_mask_bit
marked-set_mask_bit_ne mask i j lt ne =
    marked-bit (set_mask_bit mask i) j
    ∙ ap (λ (t : ℕ). t == 1) (kept (Bool-cases (j / 8 == i / 8)))
    ∙ sym (marked-bit mask j)
  where
    same_byte : j / 8 ≡ i / 8 → j % 8 ≡ i % 8 → ⊥
    same_byte p q = ne (omega arith)

    kept :
        ((j / 8 == i / 8) ≡ true) ⊎ ((j / 8 == i / 8) ≡ false)
        → bit (byte_at (j / 8) (or_byte (i / 8) (1 <<< (i % 8)) mask)) (j % 8)
          ≡ bit (byte_at (j / 8) mask) (j % 8)
    kept (inl e) =
        ap (λ (t : ℕ). bit (byte_at t (or_byte (i / 8) (1 <<< (i % 8)) mask)) (j % 8)) (==→eq _ _ e)
        ∙ ap (λ (t : ℕ). bit t (j % 8)) (byte-or_byte (i / 8) (1 <<< (i % 8)) mask lt)
        ∙ bit-u8 (j % 8) (bit_or (byte_at (i / 8) mask) (1 <<< (i % 8))) (omega arith)
        ∙ bit-bit_or (j % 8) (byte_at (i / 8) mask) (1 <<< (i % 8))
        ∙ omega (
          arith,
          bit-pow_ne (j % 8) (i % 8) (same_byte (==→eq _ _ e)),
          ap (λ (t : ℕ). bit (byte_at t mask) (j % 8)) (==→eq (j / 8) (i / 8) e),
        )
    kept (inr e) =
        ap (λ (t : ℕ). bit t (j % 8))
          (byte-or_byte_ne (j / 8) (i / 8) (1 <<< (i % 8)) mask (not-==→ne _ _ e))

byte-zeros : (n m : ℕ) → byte_at n (replicate m 0) ≡ 0
byte-zeros n zero = refl
byte-zeros zero (suc m) = refl
byte-zeros (suc n) (suc m) = byte-zeros n m

-- Nothing is marked at first.
pub marked-no_marks : (i : ℕ) → marked no_marks i ≡ false
marked-no_marks i =
    marked-bit no_marks i
    ∙ ap (λ (t : ℕ). bit t (i % 8) == 1) (byte-zeros (i / 8) 16)
    ∙ ap (λ (t : ℕ). t == 1) (bit-zero (i % 8))
