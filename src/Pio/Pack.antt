-- ===== src/Pio/Pack.antt =====
-- The inner loop of sdhci_write_block_pio against the words that its bytes make.
use mathlib.Core.List.{append_assoc}
use linux_sdhci_rtt.Base.{
  ℕ, ◌+◌, ◌<◌, ◌≡◌, refl, ap, sym, ◌∙◌, subst, Bool, true, false, not, ◌&&◌, ◌||◌, List, [], ◌∷◌,
  ◌++◌, ◌==◌, length, arith, tests, ==→eq, inl, inr, Bool-cases, length-append,
}
use linux_sdhci_rtt.Regs.{buffer}
use linux_sdhci_rtt.Device.{Device, Width, writel}
use linux_sdhci_rtt.Pio.{Scratch, no_scratch, is_empty, write_bytes}
use linux_sdhci_rtt.Pio.Words.{
  le, le_words, push, AllBytes, scratch_of, one_more, le_words_full, le_words_last, AllBytes-append,
}

-- What is left to do behind some bytes: those that wait, and whatever comes.
pub record IsOwed (over : Bool) (ps bs : List ℕ) (d : Device) (r : Scratch × Device) : Type 0 where
  pub waits : List ℕ
  pub held : r.0 ≡ scratch_of waits
  pub short : length waits < 4
  pub all : AllBytes waits
  pub owed :
      (rest : List ℕ)
      → (over ≡ true → rest ≡ [])
      → push (le_words (ps ++ (bs ++ rest))) d.log ≡ push (le_words (waits ++ rest)) r.1.log
  pub settled : over ≡ true → is_empty bs && not (is_empty ps) ≡ false → waits ≡ []

module _ (over : Bool) (ps : List ℕ) (b : ℕ) (bs : List ℕ) (d : Device) (lt : length ps < 4)
    (all : AllBytes ps) (small : b < 256) where
  abbrev word : ℕ
  word = le (ps ++ b ∷ [])

  abbrev sent : Device
  sent = (writel word buffer d).1

  write_bytes_full :
      (length ps + 1 == 4 || is_empty bs && over) ≡ true
      → write_bytes over (b ∷ bs) (scratch_of ps) d ≡ write_bytes over bs no_scratch sent
  unfolding write_bytes
  write_bytes_full full = ground (arith, full, one_more ps b lt all small)

  write_bytes_wait :
      (length ps + 1 == 4 || is_empty bs && over) ≡ false
      → write_bytes over (b ∷ bs) (scratch_of ps) d
        ≡ write_bytes over bs (scratch_of (ps ++ b ∷ [])) d
  unfolding write_bytes
  write_bytes_wait wait =
      ground (arith, wait, one_more ps b lt all small, length-append ps (b ∷ []))

  log-sent : sent.log ≡ record { width = Width.long; reg = buffer; val = word } ∷ d.log
  unfolding writel
  log-sent =
      ap (λ (v : ℕ). record { width = Width.long; reg = buffer; val = v } ∷ d.log)
        (omega (arith, one_more ps b lt all small))

  shifted : (rest : List ℕ) → ps ++ ((b ∷ bs) ++ rest) ≡ (ps ++ b ∷ []) ++ (bs ++ rest)
  shifted rest = sym (append_assoc ps (b ∷ []) (bs ++ rest))

  push-sent : (ws : List ℕ) → push (word ∷ ws) d.log ≡ push ws sent.log
  push-sent ws = ap (push ws) (sym log-sent)

  -- The byte completes a word, or ends the block.
  full-IsOwed :
      (length ps + 1 == 4) ≡ true
      → IsOwed over [] bs sent (write_bytes over bs no_scratch sent)
      → IsOwed over ps (b ∷ bs) d (write_bytes over (b ∷ bs) (scratch_of ps) d)
  full-IsOwed four o =
      subst (IsOwed over ps (b ∷ bs) d) (sym (write_bytes_full (ground (arith, four)))) (record {
        waits = o.waits;
        held = o.held;
        short = o.short;
        all = o.all;
        owed = λ rest h.
            ap (λ (ws : List ℕ). push (le_words ws) d.log) (shifted rest)
            ∙ ap (λ (ws : List ℕ). push ws d.log)
                (le_words_full (ps ++ b ∷ []) (bs ++ rest)
                  (omega (tests, length-append ps (b ∷ []), ==→eq (length ps + 1) 4 four)))
            ∙ push-sent (le_words (bs ++ rest))
            ∙ o.owed rest h;
        settled = λ end e. o.settled end (nothing_waits bs);
      })
    where
      nothing_waits : (bs : List ℕ) → is_empty bs && false ≡ false
      nothing_waits [] = refl
      nothing_waits (x ∷ xs) = refl

  wait-IsOwed :
      (length ps + 1 == 4 || is_empty bs && over) ≡ false
      → IsOwed over (ps ++ b ∷ []) bs d (write_bytes over bs (scratch_of (ps ++ b ∷ [])) d)
      → IsOwed over ps (b ∷ bs) d (write_bytes over (b ∷ bs) (scratch_of ps) d)
  wait-IsOwed wait o = subst (IsOwed over ps (b ∷ bs) d) (sym (write_bytes_wait wait)) (record {
    waits = o.waits;
    held = o.held;
    short = o.short;
    all = o.all;
    owed = λ rest h. ap (λ (ws : List ℕ). push (le_words ws) d.log) (shifted rest) ∙ o.owed rest h;
    settled = λ end e. o.settled end (ground (arith, wait, end));
  })

-- The last byte of the block.
flush-IsOwed :
    (ps : List ℕ) (b : ℕ) (d : Device)
    → length ps + 1 < 4
    → AllBytes ps
    → b < 256
    → IsOwed true ps (b ∷ []) d (write_bytes true (b ∷ []) (scratch_of ps) d)
unfolding write_bytes
flush-IsOwed ps b d lt all small =
    subst (IsOwed true ps (b ∷ []) d)
      (sym (write_bytes_full true ps b [] d (omega arith) all small (ends (length ps + 1 == 4))))
      (record {
        waits = [];
        held = refl;
        short = omega arith;
        all = tt;
        owed = λ rest h.
            ap (λ (r : List ℕ). push (le_words (ps ++ (b ∷ r))) d.log) (h refl)
            ∙ ap (λ (ws : List ℕ). push ws d.log)
                (le_words_last (ps ++ b ∷ []) (omega (arith, length-append ps (b ∷ [])))
                  (omega (arith, length-append ps (b ∷ []))))
            ∙ push-sent true ps b [] d (omega arith) all small []
            ∙ ap
                (λ (r : List ℕ).
                  push (le_words r) (sent true ps b [] d (omega arith) all small).log)
                (sym (h refl));
        settled = λ end e. refl;
      })
  where
    ends : (c : Bool) → (c || true) ≡ true
    ends true = refl
    ends false = refl

nothing_written :
    (over : Bool) (ps : List ℕ) (d : Device)
    → length ps < 4
    → AllBytes ps
    → IsOwed over ps [] d (write_bytes over [] (scratch_of ps) d)
unfolding write_bytes
nothing_written over ps d lt all = record {
  waits = ps;
  held = refl;
  short = lt;
  all = all;
  owed = λ rest h. refl;
  settled = λ end e. none_waits ps e;
}
  where
    none_waits : (ps : List ℕ) → not (is_empty ps) ≡ false → ps ≡ []
    none_waits [] e = refl
    none_waits (p ∷ ps) e = cc

fewer-IsOwed :
    (over : Bool) (ps : List ℕ) (b : ℕ) (bs : List ℕ) (d : Device)
    → length ps < 4
    → AllBytes ps
    → b < 256
    → (length ps + 1 == 4) ≡ false
    → IsOwed over (ps ++ b ∷ []) bs d (write_bytes over bs (scratch_of (ps ++ b ∷ [])) d)
    → IsOwed over ps (b ∷ bs) d (write_bytes over (b ∷ bs) (scratch_of ps) d)
fewer-IsOwed true ps b [] d lt all small few o = flush-IsOwed ps b d (grind tests) all small
fewer-IsOwed false ps b [] d lt all small few o =
    wait-IsOwed false ps b [] d lt all small (ground (arith, few)) o
fewer-IsOwed over ps b (c ∷ cs) d lt all small few o =
    wait-IsOwed over ps b (c ∷ cs) d lt all small (ground (arith, few)) o

pub write_bytes-IsOwed :
    (over : Bool) (bs ps : List ℕ) (d : Device)
    → length ps < 4
    → AllBytes ps
    → AllBytes bs
    → IsOwed over ps bs d (write_bytes over bs (scratch_of ps) d)
write_bytes-IsOwed over [] ps d lt all more = nothing_written over ps d lt all
write_bytes-IsOwed over (b ∷ bs) ps d lt all (small, more) =
    elim (Bool-cases (length ps + 1 == 4)) [
      | inl four ↦
          full-IsOwed over ps b bs d lt all small four
            (write_bytes-IsOwed over bs [] (sent over ps b bs d lt all small) (omega arith) tt more)
      | inr few ↦ fewer-IsOwed over ps b bs d lt all small few (
          write_bytes-IsOwed over bs (ps ++ b ∷ []) d (grind (tests, length-append ps (b ∷ [])))
            (AllBytes-append ps (b ∷ []) all (small, tt)) more)
    ]
