-- ===== src/Pio/Words.antt =====
-- The words that the bytes of a block make in the buffer register of the controller.
use linux_sdhci_rtt.Base.{
  ℕ, ◌+◌, ◌*◌, ◌^◌, ◌<◌, ◌≡◌, refl, ap, bit_or, List, [], ◌∷◌, ◌++◌, ◌<<<◌, u32, length, arith,
  bit_or_fields, bit_or_comm,
}
use linux_sdhci_rtt.Regs.{buffer}
use linux_sdhci_rtt.Device.{Write, Width}
use linux_sdhci_rtt.Pio.{Scratch}

-- The number that bytes make, the first one lowest.
abbrev pub le : List ℕ → ℕ
le [] = 0
le (b ∷ bs) = b + 256 * le bs

-- The words of four bytes; the last one may have fewer.
abbrev pub le_words : List ℕ → List ℕ
le_words [] = []
le_words (a ∷ []) = le (a ∷ []) ∷ []
le_words (a ∷ b ∷ []) = le (a ∷ b ∷ []) ∷ []
le_words (a ∷ b ∷ c ∷ []) = le (a ∷ b ∷ c ∷ []) ∷ []
le_words (a ∷ b ∷ c ∷ d ∷ rest) = le (a ∷ b ∷ c ∷ d ∷ []) ∷ le_words rest

-- The writes of these words to the buffer register, on top of earlier ones.
abbrev pub push : List ℕ → List Write → List Write
push [] log = log
push (w ∷ ws) log = push ws (record { width = Width.long; reg = buffer; val = w } ∷ log)

abbrev pub AllBytes : List ℕ → Type 0
AllBytes [] = Unit {0}
AllBytes (b ∷ bs) = (b < 256) × AllBytes bs

-- What `scratch` and `chunk` are when these bytes wait for the rest of their word.
abbrev pub scratch_of : List ℕ → Scratch
scratch_of ps = record { scratch = le ps; chunk = length ps }

pub joined :
    (k b lo : ℕ)
    → lo < 2 ^ k
    → b * 2 ^ k + lo < 2 ^ 32
    → u32 (bit_or lo (u32 (b <<< k))) ≡ b * 2 ^ k + lo
joined k b lo fits small =
    omega (
      arith,
      ap (λ (t : ℕ). bit_or lo t) whole,
      bit_or_comm lo (b <<< k),
      bit_or_fields k b lo fits,
    )
  where
    whole : u32 (b <<< k) ≡ b <<< k
    whole = omega arith

-- One byte more, behind at most three.
pub one_more :
    (ps : List ℕ) (b : ℕ)
    → length ps < 4
    → AllBytes ps
    → b < 256
    → u32 (bit_or (le ps) (u32 (b <<< (length ps * 8)))) ≡ le (ps ++ b ∷ [])
one_more [] b lt all small = omega (arith, joined 0 b 0 (omega arith) (omega arith))
one_more (p ∷ []) b lt (p1, all) small =
    omega (arith, joined 8 b (le (p ∷ [])) (omega arith) (omega arith))
one_more (p ∷ q ∷ []) b lt (p1, (p2, all)) small =
    omega (arith, joined 16 b (le (p ∷ q ∷ [])) (omega arith) (omega arith))
one_more (p ∷ q ∷ r ∷ []) b lt (p1, (p2, (p3, all))) small =
    omega (arith, joined 24 b (le (p ∷ q ∷ r ∷ [])) (omega arith) (omega arith))
one_more (p ∷ q ∷ r ∷ t ∷ ps) b lt all small = absurd (omega arith)

-- A word is over when it has four bytes.
pub le_words_full :
    (ps rest : List ℕ) → length ps ≡ 4 → le_words (ps ++ rest) ≡ le ps ∷ le_words rest
le_words_full [] rest e = absurd (omega arith)
le_words_full (a ∷ []) rest e = absurd (omega arith)
le_words_full (a ∷ b ∷ []) rest e = absurd (omega arith)
le_words_full (a ∷ b ∷ c ∷ []) rest e = absurd (omega arith)
le_words_full (a ∷ b ∷ c ∷ d ∷ []) rest e = refl
le_words_full (a ∷ b ∷ c ∷ d ∷ f ∷ ps) rest e = absurd (omega arith)

-- The last word may have fewer.
pub le_words_last : (ps : List ℕ) → 0 < length ps → length ps < 4 → le_words ps ≡ le ps ∷ []
le_words_last [] pos lt = absurd (omega arith)
le_words_last (a ∷ []) pos lt = refl
le_words_last (a ∷ b ∷ []) pos lt = refl
le_words_last (a ∷ b ∷ c ∷ []) pos lt = refl
le_words_last (a ∷ b ∷ c ∷ d ∷ ps) pos lt = absurd (omega arith)

pub AllBytes-append : (xs ys : List ℕ) → AllBytes xs → AllBytes ys → AllBytes (xs ++ ys)
AllBytes-append [] ys all more = more
AllBytes-append (x ∷ xs) ys (b, all) more = (b, AllBytes-append xs ys all more)
