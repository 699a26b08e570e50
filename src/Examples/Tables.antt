-- ===== src/Examples/Tables.antt =====
-- The theorems on the ADMA2 table, at a scatter list of two entries.
use linux_sdhci_rtt.Base.{
  ℕ, ◌≡◌, refl, ◌+◌, ◌%◌, ◌<◌, true, false, List, [], ◌∷◌, ◌++◌, arith, length, u64, ◌-◌, ◌==◌,
  if◌then◌else◌,
}
use linux_sdhci_rtt.Regs.{adma2_tran_valid}
use linux_sdhci_rtt.Adma.{
  adma_table_post, Sg, adma_table_pre, align_offset, add_sg, adma_write_desc, start_table,
}
use linux_sdhci_rtt.Adma.Shape.{adma_table_pre-IsAligned, IsAligned, add_sg_short}
use linux_sdhci_rtt.Adma.Fetch.{fetch, AllMapped, Holds, all_bytes, read_mem}
use linux_sdhci_rtt.Adma.Restore.{adma_table_post-restores, AllFetched}
use linux_sdhci_rtt.Adma.Transfer.{words, fetch-adma_table_pre}

-- Memory holds at each address its remainder by 256; the align buffer stands at 512 and holds the
-- three bytes of the first entry before 260.
abbrev memory : ℕ → ℕ
memory a = if a == 512 then 1 else if a == 513 then 2 else if a == 514 then 3 else a % 256

abbrev two_entries : List Sg
two_entries =
    record { dma_address = 257; length = 5; bytes = 1 ∷ 2 ∷ 3 ∷ 4 ∷ 5 ∷ [] }
    ∷ record { dma_address = 768; length = 2; bytes = 0 ∷ 1 ∷ [] }
    ∷ []

two_entries-AllMapped : AllMapped false memory two_entries
unfolding align_offset read_mem
two_entries-AllMapped = (
  record { covers = omega arith; fits = omega arith; below = omega arith; stored = refl },
  (record { covers = omega arith; fits = omega arith; below = omega arith; stored = refl }, tt),
)

two_entries-Holds : Holds memory 512 (adma_table_pre false false true 0 512 two_entries).1.align
unfolding adma_table_pre add_sg start_table align_offset read_mem
two_entries-Holds = (refl, tt)

fetch-adma_table_pre_example :
    fetch false memory (adma_table_pre false false true 0 512 two_entries).0 ≡ all_bytes two_entries
fetch-adma_table_pre_example =
    fetch-adma_table_pre false false memory 0 512 two_entries two_entries-AllMapped (omega arith)
      two_entries-Holds

adma_table_pre-IsAligned_example : IsAligned (adma_table_pre false false true 0 512 two_entries).0
adma_table_pre-IsAligned_example = adma_table_pre-IsAligned false false true 0 512 two_entries refl

-- An entry of two bytes at an odd address.
abbrev short_entry : Sg
short_entry = record { dma_address = 257; length = 2; bytes = 1 ∷ 2 ∷ [] }

short_entry-IsShort : short_entry.length < align_offset short_entry.dma_address
unfolding align_offset
short_entry-IsShort = omega arith

add_sg_short_example :
    (add_sg false true 0 (start_table 512) short_entry).descs
    ≡ (start_table 512).descs
      ++ adma_write_desc false 0
          (start_table 512).align_addr
          (align_offset short_entry.dma_address)
          adma2_tran_valid
        ∷ adma_write_desc false 0
            (u64 (short_entry.dma_address + align_offset short_entry.dma_address))
            (65536 + short_entry.length - align_offset short_entry.dma_address)
            adma2_tran_valid
        ∷ []
add_sg_short_example = add_sg_short false true 0 (start_table 512) short_entry short_entry-IsShort

-- The first entry has come with its three bytes in the align buffer.
abbrev two_fetched : List Sg
two_fetched =
    record { dma_address = 257; length = 5; bytes = 9 ∷ 9 ∷ 9 ∷ 4 ∷ 5 ∷ [] }
    ∷ record { dma_address = 768; length = 2; bytes = 0 ∷ 1 ∷ [] }
    ∷ []

two_fetched-AllFetched : AllFetched two_entries two_fetched
unfolding align_offset
two_fetched-AllFetched = (
  record { same_address = refl; same_length = refl; arrived = refl },
  (record { same_address = refl; same_length = refl; arrived = refl }, tt),
)

adma_table_post-restores_example :
    adma_table_post true (words two_entries) two_fetched ≡ two_entries
adma_table_post-restores_example =
    adma_table_post-restores two_entries two_fetched two_fetched-AllFetched
