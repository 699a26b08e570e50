-- ===== src/Adma/Restore.antt =====
-- sdhci_adma_table_post and the align buffer.
use linux_sdhci_rtt.Base.{
  ℕ, zero, suc, ◌-◌, ◌≡◌, refl, ap, ap₂, sym, ◌∙◌, bit_and, Bool, true, false, not, List, [], ◌∷◌,
  ◌++◌, ◌==◌, has, ◌||◌, if_case, take-append-drop, take, drop, arith, tests, Bool-cases, inl, inr,
  bit_and_low,
}
use linux_sdhci_rtt.Adma.{Sg, align_offset, copy_back, has_unaligned, adma_table_post, adma2_mask}
use linux_sdhci_rtt.Adma.Shape.{align_offset-mod}
use linux_sdhci_rtt.Adma.Transfer.{words}

-- What the transfer of a read has left in an entry: the bytes of `sg` from its first aligned address
-- on, and anything before.
pub record IsFetched (sg got : Sg) : Type 0 where
  pub same_address : got.dma_address ≡ sg.dma_address
  pub same_length : got.length ≡ sg.length
  pub arrived :
      drop (align_offset sg.dma_address) got.bytes ≡ drop (align_offset sg.dma_address) sg.bytes

abbrev pub AllFetched : List Sg → List Sg → Type 0
AllFetched [] [] = Unit {0}
AllFetched (sg ∷ sgs) (got ∷ gots) = IsFetched sg got × AllFetched sgs gots
AllFetched _ _ = ⊥

unaligned : (a : ℕ) → has a adma2_mask ≡ not (align_offset a == 0)
unfolding has
unaligned a = ground (arith, align_offset-mod a, bit_and_low 2 a)

size-align_offset : (a : ℕ) → has a adma2_mask ≡ true → 4 - bit_and a adma2_mask ≡ align_offset a
unfolding has
size-align_offset a e = ground (arith, align_offset-mod a, bit_and_low 2 a)

take_twice : (n : ℕ) (xs : List ℕ) → take n (take n xs) ≡ take n xs
take_twice zero xs = refl
take_twice (suc n) [] = refl
take_twice (suc n) (x ∷ xs) = ap (◌∷◌ x) (take_twice n xs)

abbrev entry : ℕ → ℕ → List ℕ → Sg
entry a n bytes = record { dma_address = a; length = n; bytes = bytes }

-- An entry with the address and the length of `sg`, and its bytes.
entry-IsFetched :
    (sg got : Sg) (bytes : List ℕ)
    → IsFetched sg got
    → bytes ≡ sg.bytes
    → entry got.dma_address got.length bytes ≡ sg
entry-IsFetched sg got bytes f e =
    ap (λ a. entry a got.length bytes) f.same_address
    ∙ ap (λ n. entry sg.dma_address n bytes) f.same_length
    ∙ ap (entry sg.dma_address sg.length) e

-- An aligned entry takes no word.
copy_back-aligned :
    (ws : List (List ℕ)) (got : Sg) (gots : List Sg)
    → has got.dma_address adma2_mask ≡ false
    → copy_back ws (got ∷ gots) ≡ got ∷ copy_back ws gots
unfolding copy_back
copy_back-aligned [] got gots e = refl
copy_back-aligned (w ∷ ws) got gots e = rw e refl

copy_back-unaligned :
    (w : List ℕ) (ws : List (List ℕ)) (got : Sg) (gots : List Sg)
    → has got.dma_address adma2_mask ≡ true
    → copy_back (w ∷ ws) (got ∷ gots)
      ≡ entry got.dma_address got.length
          (take (align_offset got.dma_address) w ++ drop (align_offset got.dma_address) got.bytes)
        ∷ copy_back ws gots
unfolding copy_back
copy_back-unaligned w ws got gots e = rw (e, size-align_offset got.dma_address e) refl

-- The bytes of an entry, by the number of those before its first aligned address.
same_bytes : (o : ℕ) (got xs : List ℕ) → o ≡ 0 → drop o got ≡ drop o xs → got ≡ xs
same_bytes zero got xs e arrived = arrived
same_bytes (suc o) got xs e arrived = absurd (omega arith)

joined_bytes :
    (o : ℕ) (got xs : List ℕ) → drop o got ≡ drop o xs → take o (take o xs) ++ drop o got ≡ xs
joined_bytes o got xs arrived = ap₂ ◌++◌ (take_twice o xs) arrived ∙ take-append-drop o xs

copy_back-words : (sgs gots : List Sg) → AllFetched sgs gots → copy_back (words sgs) gots ≡ sgs
unfolding copy_back
copy_back-words [] [] h = refl
copy_back-words [] (got ∷ gots) h = elim h [ ]
copy_back-words (sg ∷ sgs) [] h = elim h [ ]
copy_back-words (sg ∷ sgs) (got ∷ gots) (f, fs) =
    elim (Bool-cases (align_offset sg.dma_address == 0)) [
      | inl aligned ↦ rw aligned (
          copy_back-aligned (words sgs) got gots
            (ap (λ a. has a adma2_mask) f.same_address ∙ unaligned sg.dma_address ∙ ap not aligned)
          ∙ ap₂ ◌∷◌
              (entry-IsFetched sg got got.bytes f (
                same_bytes (align_offset sg.dma_address) got.bytes sg.bytes (omega tests)
                  f.arrived))
              (copy_back-words sgs gots fs))
      | inr apart ↦ rw apart (
          copy_back-unaligned (take (align_offset sg.dma_address) sg.bytes) (words sgs) got gots
            (ap (λ a. has a adma2_mask) f.same_address ∙ unaligned sg.dma_address ∙ ap not apart)
          ∙ ap₂ ◌∷◌
              (entry-IsFetched sg got _ f (
                ap
                  (λ a.
                    take (align_offset a) (take (align_offset sg.dma_address) sg.bytes)
                    ++ drop (align_offset a) got.bytes)
                  f.same_address
                ∙ joined_bytes (align_offset sg.dma_address) got.bytes sg.bytes f.arrived))
              (copy_back-words sgs gots fs))
    ]

neither : (a b : Bool) → (a || b) ≡ false → (a ≡ false) × (b ≡ false)
neither a b e = ground arith

offset_zero : (a : ℕ) → has a adma2_mask ≡ false → align_offset a ≡ 0
unfolding has
offset_zero a e = ground (arith, align_offset-mod a, bit_and_low 2 a)

-- Without an unaligned entry nothing is to be copied.
all_aligned : (sgs gots : List Sg) → AllFetched sgs gots → has_unaligned gots ≡ false → gots ≡ sgs
unfolding has_unaligned
all_aligned [] [] h e = refl
all_aligned [] (got ∷ gots) h e = elim h [ ]
all_aligned (sg ∷ sgs) [] h e = elim h [ ]
all_aligned (sg ∷ sgs) (got ∷ gots) (f, fs) e =
    let (here, there) = neither (has got.dma_address adma2_mask) (has_unaligned gots) e in
    ap₂ ◌∷◌
      (entry-IsFetched sg got got.bytes f (
        same_bytes (align_offset sg.dma_address) got.bytes sg.bytes
          (offset_zero sg.dma_address (ap (λ a. has a adma2_mask) (sym f.same_address) ∙ here))
          f.arrived))
      (all_aligned sgs gots fs there)

-- After a read, sdhci_adma_table_post leaves the scatter list with the bytes of the card: the align
-- buffer has, for each unaligned entry in order, its bytes before the first aligned address, and the
-- transfer has put the other bytes of each entry where they belong.
pub adma_table_post-restores :
    (sgs gots : List Sg) → AllFetched sgs gots → adma_table_post true (words sgs) gots ≡ sgs
unfolding adma_table_post
adma_table_post-restores sgs gots h =
    if_case (λ xs. xs ≡ sgs) (has_unaligned gots) (λ _. copy_back-words sgs gots h)
      (λ e. all_aligned sgs gots h e)
