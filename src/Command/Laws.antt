-- ===== src/Command/Laws.antt =====
-- SDHCI_MAKE_CMD and SDHCI_GET_CMD.
use linux_sdhci_rtt.Base.{
  ℕ, ◌+◌, ◌*◌, ◌/◌, ◌%◌, ◌<◌, ◌≡◌, ap₂, ◌∙◌, bit_or, arith, bit_or_fields, bit_and_low, u16,
}
use linux_sdhci_rtt.Command.{make_cmd, get_cmd}

make_cmd-sum : (c f : ℕ) → make_cmd c f ≡ c % 256 * 256 + f % 256
unfolding make_cmd
make_cmd-sum c f =
    ap₂ (λ a b. bit_or (a * 256) b) (bit_and_low 8 c) (bit_and_low 8 f)
    ∙ bit_or_fields 8 (c % 256) (f % 256) (omega arith)

-- SDHCI_GET_CMD of the 16 bits that SDHCI_MAKE_CMD writes to the command register is the opcode,
-- which has 6 bits, whatever the flags.
pub get_cmd-make_cmd : (c f : ℕ) → c < 64 → get_cmd (u16 (make_cmd c f)) ≡ c
unfolding get_cmd
get_cmd-make_cmd c f h = omega (arith, bit_and_low 6 (u16 (make_cmd c f) / 256), make_cmd-sum c f)
