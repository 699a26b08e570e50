-- ===== src/Examples/Transfers.antt =====
-- The theorems on transfers without DMA, at a block that is cut into pieces.
use linux_sdhci_rtt.Base.{ℕ, ◌≡◌, refl, none, some, List, [], ◌∷◌, drop, arith}
use linux_sdhci_rtt.Device.{writel}
use linux_sdhci_rtt.Pio.{
  Miter, done, runs_on, write_bytes, write_pieces, write_block_pio, read_block_pio,
}
use linux_sdhci_rtt.Pio.Words.{le_words, push, AllBytes}
use linux_sdhci_rtt.Pio.Handed.{bytes_of, handed}
use linux_sdhci_rtt.Pio.Block.{IsSent, write_block_pio-IsSent}
use linux_sdhci_rtt.Pio.Fifo.{IsFilled, read_block_pio-IsFilled}
use linux_sdhci_rtt.Pio.Stub.{port_miter, port_miter_stuck}
use linux_sdhci_rtt.Examples.{device}

-- An iterator over buffers in memory: the pieces that are left.
abbrev leftover : List ℕ → List (List ℕ) → List (List ℕ)
leftover [] pieces = pieces
leftover (b ∷ bs) pieces = (b ∷ bs) ∷ pieces

abbrev buffers : Miter (List (List ℕ))
buffers = record {
  next = λ s. elim s [ [] ↦ none | buf ∷ s ↦ some buf ];
  advance = λ n s. elim s [ [] ↦ [] | buf ∷ s ↦ leftover (drop n buf) s ];
}

-- Buffers of three bytes, none, and four, of which a block of six bytes takes a part.
abbrev some_buffers : List (List ℕ)
some_buffers = (1 ∷ 2 ∷ 3 ∷ []) ∷ [] ∷ (4 ∷ 255 ∷ 6 ∷ 7 ∷ []) ∷ []

some_bytes : AllBytes (bytes_of (handed buffers 10 6 some_buffers))
unfolding handed
some_bytes =
    (omega arith, (omega arith, (omega arith, (omega arith, (omega arith, (omega arith, tt))))))

write_block_pio-IsSent_example :
    IsSent buffers 10 6 []
      (handed buffers 10 6 some_buffers)
      device
      (write_block_pio buffers 10 6 some_buffers device)
write_block_pio-IsSent_example = write_block_pio-IsSent buffers 10 6 some_buffers device some_bytes

-- The block is written, and its last piece is left.
some_buffers-written : write_block_pio buffers 10 6 some_buffers device ≡ (
  done ((7 ∷ []) ∷ []),
  record device { accesses = 2; log = push (le_words (1 ∷ 2 ∷ 3 ∷ 4 ∷ 255 ∷ 6 ∷ [])) [] },
)
unfolding write_block_pio write_pieces write_bytes writel
some_buffers-written = refl

read_block_pio-IsFilled_example :
    IsFilled buffers 10 6 []
      (handed buffers 10 6 some_buffers)
      device
      (read_block_pio buffers 10 6 some_buffers device)
read_block_pio-IsFilled_example = read_block_pio-IsFilled buffers 10 6 some_buffers device

port_miter_stuck_example :
    ((write_block_pio port_miter 1000 512 [] device).0 ≡ runs_on)
    × ((read_block_pio port_miter 1000 512 [] device).0 ≡ runs_on)
port_miter_stuck_example = port_miter_stuck 1000 512 device (omega arith)
