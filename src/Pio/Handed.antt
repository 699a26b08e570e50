-- ===== src/Pio/Handed.antt =====
-- The pieces of a block that the iterator over the scatter list hands to the loops of sdhci_read_block_pio and
-- sdhci_write_block_pio, and how these loops end.
use linux_sdhci_rtt.Base.{
  ℕ, zero, suc, ◌+◌, ◌-◌, ◌≤◌, ◌<◌, min, ◌≡◌, refl, true, false, none, some, List, [], ◌∷◌, ◌++◌,
  ◌==◌, length, take, arith, length-append, length-take,
}
use linux_sdhci_rtt.Pio.{Miter, Pio, done, bug_on, runs_on}

abbrev pub bytes_of : List (List ℕ) → List ℕ
bytes_of [] = []
bytes_of (piece ∷ pieces) = piece ++ bytes_of pieces

-- How many of the pieces are empty.
abbrev pub empties : List (List ℕ) → ℕ
empties [] = 0
empties ([] ∷ pieces) = suc (empties pieces)
empties ((b ∷ bs) ∷ pieces) = empties pieces

module _ {S : Type 0} (miter : Miter S) where
  -- The bytes of a piece that belong to the block.
  abbrev pub share : List ℕ → ℕ → ℕ
  share buf blksize = min (length buf) blksize

  -- The pieces that the iterator hands out for a block in so many rounds.
  unfoldable pub handed : ℕ → ℕ → S → List (List ℕ)
  handed zero blksize s = []
  handed (suc fuel) blksize s = elim (blksize == 0) [
    | true ↦ []
    | false ↦ elim (miter.next s) [
      | none ↦ []
      | some buf ↦
          let n = share buf blksize in take n buf ∷ handed fuel (blksize - n) (miter.advance n s)
    ]
  ]

  -- A loop that is done has had all the bytes of the block, BUG_ON stops one that lacks some, and one that runs on
  -- has spent each of its rounds on a byte or on an empty piece.
  abbrev pub Ending : ℕ → ℕ → List (List ℕ) → Pio S → Type 0
  Ending fuel blksize pieces (done s) = (length (bytes_of pieces) ≡ blksize)
  Ending fuel blksize pieces bug_on = (length (bytes_of pieces) < blksize)
  Ending fuel blksize pieces runs_on = (fuel ≤ length (bytes_of pieces) + empties pieces)

  pub handed-over : (fuel blksize : ℕ) (s : S) → (blksize == 0) ≡ true → handed fuel blksize s ≡ []
  unfolding handed
  handed-over zero blksize s over = refl
  handed-over (suc fuel) blksize s over = ground (arith, over)

  pub handed-none :
      (fuel blksize : ℕ) (s : S) → miter.next s ≡ none → handed (suc fuel) blksize s ≡ []
  unfolding handed
  handed-none fuel blksize s e = ground (arith, e)

  pub handed-some :
      (fuel blksize : ℕ) (s : S) (buf : List ℕ)
      → (blksize == 0) ≡ false
      → miter.next s ≡ some buf
      → handed (suc fuel) blksize s
        ≡ take (share buf blksize) buf
          ∷ handed fuel (blksize - share buf blksize) (miter.advance (share buf blksize) s)
  unfolding handed
  handed-some fuel blksize s buf more e = ground (arith, more, e)

  share_fits :
      (buf : List ℕ) (blksize : ℕ)
      → (share buf blksize ≤ length buf) × (share buf blksize ≤ blksize)
  share_fits buf blksize = (omega arith, omega arith)

  pub length-piece :
      (buf : List ℕ) (blksize : ℕ) → length (take (share buf blksize) buf) ≡ share buf blksize
  length-piece buf blksize =
      omega (arith, length-take (share buf blksize) buf, (share_fits buf blksize).0)

  spent :
      (piece : List ℕ) (pieces : List (List ℕ))
      → 1 + empties pieces ≤ length piece + empties (piece ∷ pieces)
  spent [] pieces = omega arith
  spent (b ∷ bs) pieces = omega arith

  pub Ending-next :
      (fuel blksize : ℕ) (buf : List ℕ) (pieces : List (List ℕ)) (r : Pio S)
      → Ending fuel (blksize - share buf blksize) pieces r
      → Ending (suc fuel) blksize (take (share buf blksize) buf ∷ pieces) r
  Ending-next fuel blksize buf pieces (done s) e = omega (
    arith,
    e,
    length-append (take (share buf blksize) buf) (bytes_of pieces),
    length-piece buf blksize,
    (share_fits buf blksize).1,
  )
  Ending-next fuel blksize buf pieces bug_on e = omega (
    arith,
    e,
    length-append (take (share buf blksize) buf) (bytes_of pieces),
    length-piece buf blksize,
    (share_fits buf blksize).1,
  )
  Ending-next fuel blksize buf pieces runs_on e = omega (
    arith,
    e,
    length-append (take (share buf blksize) buf) (bytes_of pieces),
    spent (take (share buf blksize) buf) pieces,
  )
