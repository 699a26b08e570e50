-- ===== src/Pio/Unpack.antt =====
-- sdhci_read_block_pio against the bytes of the words that the buffer register gives.
use mathlib.Core.List.{append-nil}
use linux_sdhci_rtt.Base.{
  ℕ, zero, suc, ◌+◌, ◌-◌, ◌*◌, ◌^◌, ◌/◌, ◌%◌, ◌<◌, ◌≡◌, refl, ap, ap₂, sym, ◌∙◌, subst, bit_and,
  List, [], ◌∷◌, ◌++◌, ◌>>>◌, length, drop, arith, bit_and_low, suc-==_zero,
}
use linux_sdhci_rtt.Regs.{buffer}
use linux_sdhci_rtt.Device.{Device, readl}
use linux_sdhci_rtt.Pio.{Scratch, fill, read_bytes}
use linux_sdhci_rtt.Pio.Words.{le, AllBytes, scratch_of}

-- The bytes of a word, the lowest one first.
abbrev pub word_bytes : ℕ → List ℕ
word_bytes w = w % 256 ∷ w / 256 % 256 ∷ w / 65536 % 256 ∷ w / 16777216 % 256 ∷ []

-- The device after `n` reads of the buffer register, and the bytes that they give.
abbrev pub after_reads : ℕ → Device → Device
after_reads zero d = d
after_reads (suc n) d = after_reads n (readl buffer d).1

abbrev pub supply : ℕ → Device → List ℕ
supply zero d = []
supply (suc n) d = word_bytes (readl buffer d).0 ++ supply n (readl buffer d).1

-- The state of the loops when some bytes of the last word are left.
pub record IsRead (len : ℕ) (qs : List ℕ) (d : Device) (r : List ℕ × (Scratch × Device))
    : Type 0 where
  pub left : List ℕ
  pub held : r.1.0 ≡ scratch_of left
  pub short : length left < 4
  pub all : AllBytes left
  pub fills : ℕ
  pub count : length r.0 ≡ len
  pub device : r.1.1 ≡ after_reads fills d
  pub stream : qs ++ supply fills d ≡ r.0 ++ left

word_value : (d : Device) → (readl buffer d).0 < 2 ^ 32
unfolding readl
word_value d = omega arith

fill-some : (qs : List ℕ) (d : Device) → 0 < length qs → fill (scratch_of qs) d ≡ (scratch_of qs, d)
unfolding fill
fill-some [] d pos = absurd (omega arith)
fill-some (b ∷ qs) d pos = rw (suc-==_zero (length qs)) refl

fill-none :
    (d : Device)
    → fill (scratch_of []) d
      ≡ (record { scratch = (readl buffer d).0; chunk = 4 }, (readl buffer d).1)
unfolding fill
fill-none d = refl

-- One byte of the scratch word, and the bytes behind it.
abbrev first_byte : ℕ → Scratch × Device → List ℕ × (Scratch × Device)
first_byte len (q, e) =
    let p : Scratch = record { scratch = q.scratch >>> 8; chunk = q.chunk - 1 } in
    (bit_and q.scratch 0xff ∷ (read_bytes len p e).0, (read_bytes len p e).1)

read_bytes_lem :
    (len : ℕ) (p : Scratch) (d : Device) → read_bytes (suc len) p d ≡ first_byte len (fill p d)
unfolding read_bytes
read_bytes_lem len p d = refl

-- A byte that is left over is taken from the scratch word.
read_bytes-left :
    (len b : ℕ) (qs : List ℕ) (d : Device)
    → b < 256
    → read_bytes (suc len) (scratch_of (b ∷ qs)) d
      ≡ (b ∷ (read_bytes len (scratch_of qs) d).0, (read_bytes len (scratch_of qs) d).1)
read_bytes-left len b qs d small =
    read_bytes_lem len (scratch_of (b ∷ qs)) d
    ∙ ap (first_byte len) filled
    ∙ ap₂ (λ (v : ℕ) (p : Scratch). (v ∷ (read_bytes len p d).0, (read_bytes len p d).1))
        (bit_and_low 8 (b + 256 * le qs) ∙ omega arith)
        (ap₂ (λ (w c : ℕ). record { scratch = w; chunk = c }) (omega arith) (omega arith))
  where
    filled : fill (scratch_of (b ∷ qs)) d ≡ (scratch_of (b ∷ qs), d)
    filled = fill-some (b ∷ qs) d (omega arith)

-- If there is none, a word is read.
read_bytes-fill :
    (len : ℕ) (d : Device)
    → read_bytes (suc len) (scratch_of []) d
      ≡ read_bytes (suc len) (scratch_of (word_bytes (readl buffer d).0)) (readl buffer d).1
read_bytes-fill len d =
    read_bytes_lem len (scratch_of []) d
    ∙ ap (first_byte len) (
        fill-none d ∙ ap (λ (w : ℕ). (record { scratch = w; chunk = 4 }, (readl buffer d).1)) whole)
    ∙ ap (first_byte len)
        (sym (fill-some (word_bytes (readl buffer d).0) (readl buffer d).1 (omega arith)))
    ∙ sym (read_bytes_lem len (scratch_of (word_bytes (readl buffer d).0)) (readl buffer d).1)
  where
    whole : (readl buffer d).0 ≡ le (word_bytes (readl buffer d).0)
    whole = omega (arith, word_value d)

read_bytes_none : (p : Scratch) (d : Device) → read_bytes 0 p d ≡ ([], (p, d))
unfolding read_bytes
read_bytes_none p d = refl

module _ (len b : ℕ) (qs : List ℕ) (d : Device) (small : b < 256) where
  left-IsRead :
      IsRead len qs d (read_bytes len (scratch_of qs) d)
      → IsRead (suc len) (b ∷ qs) d (read_bytes (suc len) (scratch_of (b ∷ qs)) d)
  left-IsRead o =
      subst (IsRead (suc len) (b ∷ qs) d) (sym (read_bytes-left len b qs d small)) (record {
        left = o.left;
        held = o.held;
        short = o.short;
        all = o.all;
        fills = o.fills;
        count = ap suc o.count;
        device = o.device;
        stream = ap (λ (r : List ℕ). b ∷ r) o.stream;
      })

filled-IsRead :
    (len : ℕ) (d : Device)
    → IsRead
        (suc len)
        (word_bytes (readl buffer d).0)
        (readl buffer d).1
        (read_bytes (suc len) (scratch_of (word_bytes (readl buffer d).0)) (readl buffer d).1)
    → IsRead (suc len) [] d (read_bytes (suc len) (scratch_of []) d)
filled-IsRead len d o = subst (IsRead (suc len) [] d) (sym (read_bytes-fill len d)) (record {
  left = o.left;
  held = o.held;
  short = o.short;
  all = o.all;
  fills = suc o.fills;
  count = o.count;
  device = o.device;
  stream = o.stream;
})

pub read_bytes-IsRead :
    (len : ℕ) (qs : List ℕ) (d : Device)
    → length qs < 4
    → AllBytes qs
    → IsRead len qs d (read_bytes len (scratch_of qs) d)
read_bytes-IsRead zero qs d lt all =
    subst (IsRead 0 qs d) (sym (read_bytes_none (scratch_of qs) d)) (record {
      left = qs;
      held = refl;
      short = lt;
      all = all;
      fills = 0;
      count = refl;
      device = refl;
      stream = append-nil qs;
    })
read_bytes-IsRead (suc len) [] d lt all =
    let w = (readl buffer d).0 in
    filled-IsRead len d (
      left-IsRead len (w % 256) (drop 1 (word_bytes w)) (readl buffer d).1 (omega arith) (
        read_bytes-IsRead len (drop 1 (word_bytes w)) (readl buffer d).1 (omega arith)
          (omega arith, (omega arith, (omega arith, tt)))))
read_bytes-IsRead (suc len) (b ∷ qs) d lt (small, all) =
    left-IsRead len b qs d small (read_bytes-IsRead len qs d (omega arith) all)
