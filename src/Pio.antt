-- ===== src/Pio.antt =====
-- sdhci.c: sdhci_read_block_pio, sdhci_write_block_pio and sdhci_transfer_pio. The iterator over the scatter
-- list, sg_miter_next and sg_miter_stop, is an interface: the port has stubs of it (port/l-sg.c). A piece
-- of the list is the bytes of its buffer; a read tells the bytes that it stores, in order.
pub mod Words
pub mod Handed
pub mod Pack
pub mod Block
pub mod Unpack
pub mod Fifo
pub mod Stub
use linux_sdhci_rtt.Base.{
  ℕ, zero, suc, ◌+◌, ◌-◌, ◌*◌, ◌^◌, ◌/◌, ◌%◌, min, bit_or, bit_and, Bool, true, false, ◌&&◌, ◌||◌,
  Option, none, some, List, [], ◌∷◌, ◌++◌, ◌==◌, ◌<<<◌, ◌>>>◌, if◌then◌else◌, has, u32, length,
  take,
}
use linux_sdhci_rtt.Regs.{
  buffer, present_state, data_available, space_available, quirk_broken_small_pio,
}
use linux_sdhci_rtt.Device.{Device, M, readl, writel}

-- `next s` is the piece at hand, `advance n s` the iterator once `n` of its bytes are consumed.
pub record Miter (S : Type 0) : Type 0 where
  pub next : S → Option (List ℕ)
  pub advance : ℕ → S → S

-- How a loop over the pieces ends: with the iterator behind the block, or by BUG_ON; `runs_on` is the
-- loop that is not over after the rounds that are followed.
pub data Pio (S : Type 0) : Type 0 where
  done : S → Pio S
  bug_on : Pio S
  runs_on : Pio S

-- `scratch` and `chunk`.
pub record Scratch : Type 0 where
  pub scratch : ℕ
  pub chunk : ℕ

abbrev pub no_scratch : Scratch
no_scratch = record { scratch = 0; chunk = 0 }

abbrev pub is_empty : List ℕ → Bool
is_empty [] = true
is_empty (b ∷ bs) = false

-- The inner loop of sdhci_write_block_pio; `over` says that `blksize` is 0.
unfoldable pub write_bytes : Bool → List ℕ → Scratch → M Scratch
write_bytes over [] p d = (p, d)
write_bytes over (b ∷ bs) p d =
    let scratch = u32 (bit_or p.scratch (u32 (b <<< (p.chunk * 8)))) in
    let chunk = p.chunk + 1 in
    elim (chunk == 4 || is_empty bs && over) [
      | true ↦ write_bytes over bs no_scratch (writel scratch buffer d).1
      | false ↦ write_bytes over bs (record { scratch = scratch; chunk = chunk }) d
    ]

-- `if (chunk == 0) { scratch = sdhci_readl(host, SDHCI_BUFFER); chunk = 4; }`
unfoldable pub fill : Scratch → M Scratch
fill p d =
    if p.chunk == 0
    then (record { scratch = (readl buffer d).0; chunk = 4 }, (readl buffer d).1)
    else (p, d)

-- The inner loop of sdhci_read_block_pio, over `len` bytes.
unfoldable pub read_bytes : ℕ → Scratch → Device → List ℕ × (Scratch × Device)
read_bytes zero p d = ([], (p, d))
read_bytes (suc len) p d =
    let (q, e) = fill p d in
    let (bs, rest) = read_bytes len (record { scratch = q.scratch >>> 8; chunk = q.chunk - 1 }) e in
    (bit_and q.scratch 0xff ∷ bs, rest)

-- The condition of the loop of sdhci_transfer_pio, a mask of the present state.
unfoldable pub pio_mask : Bool → ℕ → ℕ → ℕ
pio_mask is_read quirks data_blocks =
    if has quirks quirk_broken_small_pio && data_blocks == 1
    then 2 ^ 32 - 1
    else if is_read
    then data_available
    else space_available

-- What a transfer leaves: `host->blocks`, the iterator, and the bytes that were stored.
pub record Transfer (S : Type 0) : Type 0 where
  pub blocks : ℕ
  pub result : Pio S
  pub stored : List ℕ

module _ {S : Type 0} (miter : Miter S) where
  -- `while (blksize)` of sdhci_write_block_pio.
  unfoldable pub write_pieces : ℕ → ℕ → Scratch → S → Device → Pio S × Device
  write_pieces zero blksize p s d = (runs_on, d)
  write_pieces (suc fuel) blksize p s d = elim (blksize == 0) [
    | true ↦ (done s, d)
    | false ↦ elim (miter.next s) [
      | none ↦ (bug_on, d)
      | some buf ↦
          let len = min (length buf) blksize in
          let (q, e) = write_bytes (blksize - len == 0) (take len buf) p d in
          write_pieces fuel (blksize - len) q (miter.advance len s) e
    ]
  ]

  unfoldable pub write_block_pio : ℕ → ℕ → S → Device → Pio S × Device
  write_block_pio fuel blksz s d = write_pieces fuel blksz no_scratch s d

  -- `while (blksize)` of sdhci_read_block_pio.
  unfoldable pub read_pieces : ℕ → ℕ → Scratch → S → Device → Pio S × (List ℕ × Device)
  read_pieces zero blksize p s d = (runs_on, ([], d))
  read_pieces (suc fuel) blksize p s d = elim (blksize == 0) [
    | true ↦ (done s, ([], d))
    | false ↦ elim (miter.next s) [
      | none ↦ (bug_on, ([], d))
      | some buf ↦
          let len = min (length buf) blksize in
          let (bs, (q, e)) = read_bytes len p d in
          let (r, (more, e2)) = read_pieces fuel (blksize - len) q (miter.advance len s) e in
          (r, (bs ++ more, e2))
    ]
  ]

  unfoldable pub read_block_pio : ℕ → ℕ → S → Device → Pio S × (List ℕ × Device)
  read_block_pio fuel blksz s d = read_pieces fuel blksz no_scratch s d

  -- One block, either way.
  unfoldable pub block_pio : Bool → ℕ → ℕ → S → Device → Pio S × (List ℕ × Device)
  block_pio true fuel blksz s d = read_block_pio fuel blksz s d
  block_pio false fuel blksz s d = let (r, e) = write_block_pio fuel blksz s d in (r, ([], e))

  -- The loop, which ends at the latest when `blocks` is 0.
  unfoldable pub transfer_blocks : Bool → ℕ → ℕ → ℕ → ℕ → S → Device → Transfer S × Device
  transfer_blocks is_read fuel blksz mask zero s d =
      (record { blocks = 0; result = done s; stored = [] }, d)
  transfer_blocks is_read fuel blksz mask (suc blocks) s d =
      let (state, d1) = readl present_state d in
      elim (has state mask) [
        | false ↦ (record { blocks = suc blocks; result = done s; stored = [] }, d1)
        | true ↦
            let (r, (bs, d2)) = block_pio is_read fuel blksz s d1 in
            elim r [
              | done s' ↦
                  let (t, d3) = transfer_blocks is_read fuel blksz mask blocks s' d2 in
                  (record t { stored = bs ++ t.stored }, d3)
              | bug_on ↦ (record { blocks = suc blocks; result = bug_on; stored = bs }, d2)
              | runs_on ↦ (record { blocks = suc blocks; result = runs_on; stored = bs }, d2)
            ]
      ]

  unfoldable pub transfer_pio : Bool → ℕ → ℕ → ℕ → ℕ → S → Device → Transfer S × Device
  transfer_pio is_read fuel blksz data_blocks blocks s d =
      transfer_blocks is_read fuel blksz (pio_mask is_read d.quirks data_blocks) blocks s d
