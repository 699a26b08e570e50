-- ===== src/Pio/Stub.antt =====
-- port/l-sg.c: sg_miter_next, sg_miter_stop and sg_miter_start of the port, which keep the iterator as it is, and
-- what the loops over the pieces make of them.
use linux_sdhci_rtt.Base.{
  ℕ, zero, suc, ◌-◌, ◌≡◌, refl, some, List, [], ◌==◌, ◌<◌, take, arith, ap, ◌∙◌, suc-==_zero,
}
use linux_sdhci_rtt.Device.{Device}
use linux_sdhci_rtt.Pio.{
  Miter, Pio, runs_on, Scratch, write_bytes, read_bytes, write_pieces, write_block_pio, read_pieces,
  read_block_pio,
}
use linux_sdhci_rtt.Pio.Block
use linux_sdhci_rtt.Pio.Handed.{share}
use linux_sdhci_rtt.Pio.Fifo

-- The iterator is its buffer; `host->sg_miter` is zero, and nothing sets it, so that the buffer is empty.
abbrev pub port_miter : Miter (List ℕ)
port_miter = record { next = λ s. some s; advance = λ n s. s }

-- No byte of the empty piece belongs to the block.
share-none : (size : ℕ) → share port_miter [] (suc size) ≡ 0
share-none size = omega arith

whole : (size : ℕ) → suc size - 0 ≡ suc size
whole size = omega arith

write_pieces_stuck :
    (fuel size : ℕ) (p : Scratch) (d : Device)
    → (write_pieces port_miter fuel (suc size) p [] d).0 ≡ runs_on
unfolding write_pieces write_bytes
write_pieces_stuck zero size p d = refl
write_pieces_stuck (suc fuel) size p d =
    ap (λ (r : Pio (List ℕ) × Device). r.0)
      (Block.pieces_step port_miter fuel (suc size) p [] d [] (suc-==_zero size) refl)
    ∙ ap
        (λ (n : ℕ).
          (write_pieces port_miter fuel (suc size - n)
            (write_bytes (suc size - n == 0) (take n []) p d).0 []
            (write_bytes (suc size - n == 0) (take n []) p d).1).0)
        (share-none size)
    ∙ ap (λ (m : ℕ). (write_pieces port_miter fuel m p [] d).0) (whole size)
    ∙ write_pieces_stuck fuel size p d

read_pieces_stuck :
    (fuel size : ℕ) (p : Scratch) (d : Device)
    → (read_pieces port_miter fuel (suc size) p [] d).0 ≡ runs_on
unfolding read_pieces read_bytes
read_pieces_stuck zero size p d = refl
read_pieces_stuck (suc fuel) size p d =
    ap (λ (r : Pio (List ℕ) × (List ℕ × Device)). r.0)
      (Fifo.pieces_step port_miter fuel (suc size) p [] d [] (suc-==_zero size) refl)
    ∙ ap
        (λ (n : ℕ).
          (read_pieces port_miter fuel (suc size - n) (read_bytes n p d).1.0 []
            (read_bytes n p d).1.1).0)
        (share-none size)
    ∙ ap (λ (m : ℕ). (read_pieces port_miter fuel m p [] d).0) (whole size)
    ∙ read_pieces_stuck fuel size p d

-- With the port's iterator no block of at least one byte is ever over, neither read nor written, however many
-- rounds are followed.
pub port_miter_stuck :
    (fuel blksz : ℕ) (d : Device)
    → 0 < blksz
    → ((write_block_pio port_miter fuel blksz [] d).0 ≡ runs_on)
      × ((read_block_pio port_miter fuel blksz [] d).0 ≡ runs_on)
unfolding write_block_pio read_block_pio
port_miter_stuck fuel zero d pos = absurd (omega arith)
port_miter_stuck fuel (suc size) d pos =
    (write_pieces_stuck fuel size _ d, read_pieces_stuck fuel size _ d)
