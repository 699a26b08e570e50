-- ===== src/Response/Laws.antt =====
-- The response as one number of 128 bits.
use linux_sdhci_rtt.Base.{
  ℕ, suc, ◌+◌, ◌*◌, ◌/◌, ◌%◌, ◌^◌, ◌<◌, ◌≡◌, refl, ap, ◌∙◌, bit_or, u32, has, bit_or_fields, arith,
  Bool-cases, inl, inr, if◌then◌else◌,
}
use linux_sdhci_rtt.Regs.{response, quirk2_rsp_136_has_crc}
use linux_sdhci_rtt.Device.{Device, readl}
use linux_sdhci_rtt.Mmc.{Resp}
use linux_sdhci_rtt.Response.{shift_resp, read_rsp_136}

abbrev pub resp_value : Resp → ℕ
resp_value r = r.w0 * 2 ^ 96 + r.w1 * 2 ^ 64 + r.w2 * 2 ^ 32 + r.w3

join_bytes :
    (a b : ℕ) → b < 2 ^ 32 → bit_or (u32 (a * 2 ^ 8)) (b / 2 ^ 24) ≡ a % 2 ^ 24 * 2 ^ 8 + b / 2 ^ 24
join_bytes a b h =
    ap (λ (t : ℕ). bit_or t (b / 2 ^ 24)) (top a)
    ∙ bit_or_fields 8 (a % 2 ^ 24) (b / 2 ^ 24) (omega arith)
  where
    top : (a : ℕ) → u32 (a * 2 ^ 8) ≡ a % 2 ^ 24 * 2 ^ 8
    top a = omega arith

shift_resp-value :
    (r : Resp)
    → r.w1 < 2 ^ 32
    → r.w2 < 2 ^ 32
    → r.w3 < 2 ^ 32
    → resp_value (shift_resp r) ≡ resp_value r * 2 ^ 8 % 2 ^ 128
unfolding shift_resp
shift_resp-value r h1 h2 h3 =
    omega (arith, join_bytes r.w0 r.w1 h1, join_bytes r.w1 r.w2 h2, join_bytes r.w2 r.w3 h3)

-- The four response registers at the accesses of the read, as one number.
abbrev pub registers_value : Device → ℕ
registers_value d =
    d.hw d.accesses (response + 12) % 2 ^ 32 * 2 ^ 96
    + d.hw (suc d.accesses) (response + 8) % 2 ^ 32 * 2 ^ 64
    + d.hw (suc (suc d.accesses)) (response + 4) % 2 ^ 32 * 2 ^ 32
    + d.hw (suc (suc (suc d.accesses))) response % 2 ^ 32

-- Without the quirk the response is the number that the four registers hold, times 2 ^ 8 modulo 2
-- ^ 128; with it, the response is that number.
pub read_rsp_136-value :
    (d : Device)
    → resp_value (read_rsp_136 d).0 ≡ (
        if has d.quirks2 quirk2_rsp_136_has_crc
        then registers_value d
        else registers_value d * 2 ^ 8 % 2 ^ 128)
unfolding read_rsp_136 readl
read_rsp_136-value d = elim (Bool-cases (has d.quirks2 quirk2_rsp_136_has_crc)) [
  | inl e ↦ rw e refl
  | inr e ↦ rw e (shift_resp-value _ (omega arith) (omega arith) (omega arith))
]
