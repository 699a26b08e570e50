-- ===== src/Response.antt =====
-- sdhci.c: sdhci_read_rsp_136, the 136-bit response.
pub mod Laws
use linux_sdhci_rtt.Base.{ℕ, ◌+◌, bit_or, Bool, u32, ◌<<<◌, ◌>>>◌, has, if◌then◌else◌}
use linux_sdhci_rtt.Regs.{response, quirk2_rsp_136_has_crc}
use linux_sdhci_rtt.Device.{Device, M, ◌>>=◌, ret, get, readl}
use linux_sdhci_rtt.Mmc.{Resp}

-- The second loop: each word moves up by a byte and takes the top byte of the next, which has not
-- moved yet.
unfoldable pub shift_resp : Resp → Resp
shift_resp r = record {
  w0 = bit_or (u32 (r.w0 <<< 8)) (r.w1 >>> 24);
  w1 = bit_or (u32 (r.w1 <<< 8)) (r.w2 >>> 24);
  w2 = bit_or (u32 (r.w2 <<< 8)) (r.w3 >>> 24);
  w3 = u32 (r.w3 <<< 8);
}

-- The words are read from the highest register to the lowest.
unfoldable pub read_rsp_136 : M Resp
unfolding shift_resp
read_rsp_136 = do
  a ← readl (response + 12)
  b ← readl (response + 8)
  c ← readl (response + 4)
  e ← readl response
  d ← get
  let r : Resp = record { w0 = a; w1 = b; w2 = c; w3 = e }
  ret (if has d.quirks2 quirk2_rsp_136_has_crc then r else shift_resp r)
