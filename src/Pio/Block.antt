-- ===== src/Pio/Block.antt =====
-- sdhci_write_block_pio: the words of a block, whatever the iterator over the scatter list hands out.
use mathlib.Core.List.{append-nil}
use linux_sdhci_rtt.Base.{
  ℕ, zero, suc, ◌-◌, ◌<◌, ◌≡◌, refl, ap, sym, ◌∙◌, subst, true, false, not, ◌&&◌, none, some, List,
  [], ◌∷◌, ◌++◌, ◌==◌, length, take, arith, tests, inl, inr, Option-cases, Bool-cases,
}
use linux_sdhci_rtt.Device.{Device}
use linux_sdhci_rtt.Pio.{
  Miter, Pio, done, bug_on, runs_on, Scratch, is_empty, write_bytes, write_pieces, write_block_pio,
}
use linux_sdhci_rtt.Pio.Words.{le_words, push, AllBytes, scratch_of}
use linux_sdhci_rtt.Pio.Pack.{write_bytes-IsOwed}
use linux_sdhci_rtt.Pio.Handed.{
  bytes_of, share, handed, handed-over, handed-none, handed-some, Ending, Ending-next, length-piece,
}

AllBytes-left : (xs ys : List ℕ) → AllBytes (xs ++ ys) → AllBytes xs
AllBytes-left [] ys all = tt
AllBytes-left (x ∷ xs) ys (b, all) = (b, AllBytes-left xs ys all)

AllBytes-right : (xs ys : List ℕ) → AllBytes (xs ++ ys) → AllBytes ys
AllBytes-right [] ys all = all
AllBytes-right (x ∷ xs) ys (b, all) = AllBytes-right xs ys all

-- No byte waits when the loop is done.
abbrev pub Settled : {S : Type 0} → List ℕ → Pio S → Type 0
Settled waits (done s) = (waits ≡ [])
Settled waits bug_on = Unit {0}
Settled waits runs_on = Unit {0}

module _ {S : Type 0} (miter : Miter S) where
  -- What the loop has written of the bytes `ps` and those of the pieces: their words, but for the word of the bytes
  -- that still wait.
  pub record IsSent (fuel blksize : ℕ) (ps : List ℕ) (pieces : List (List ℕ)) (d : Device)
      (r : Pio S × Device) : Type 0 where
    pub waits : List ℕ
    pub short : length waits < 4
    pub sent : push (le_words (ps ++ bytes_of pieces)) d.log ≡ push (le_words waits) r.1.log
    pub settled : Settled waits r.0
    pub ending : Ending miter fuel blksize pieces r.0

  abbrev written : List ℕ → ℕ → Scratch → Device → Scratch × Device
  written buf blksize p d =
      write_bytes (blksize - share miter buf blksize == 0) (take (share miter buf blksize) buf) p d

  pieces_over :
      (fuel blksize : ℕ) (p : Scratch) (s : S) (d : Device)
      → (blksize == 0) ≡ true
      → write_pieces miter (suc fuel) blksize p s d ≡ (done s, d)
  unfolding write_pieces
  pieces_over fuel blksize p s d over = ground (arith, over)

  pieces_none :
      (fuel blksize : ℕ) (p : Scratch) (s : S) (d : Device)
      → (blksize == 0) ≡ false
      → miter.next s ≡ none
      → write_pieces miter (suc fuel) blksize p s d ≡ (bug_on, d)
  unfolding write_pieces
  pieces_none fuel blksize p s d more e = ground (arith, more, e)

  pub pieces_step :
      (fuel blksize : ℕ) (p : Scratch) (s : S) (d : Device) (buf : List ℕ)
      → (blksize == 0) ≡ false
      → miter.next s ≡ some buf
      → write_pieces miter (suc fuel) blksize p s d
        ≡ write_pieces miter fuel
            (blksize - share miter buf blksize)
            (written buf blksize p d).0
            (miter.advance (share miter buf blksize) s)
            (written buf blksize p d).1
  unfolding write_pieces
  pieces_step fuel blksize p s d buf more e = ground (arith, more, e)

  -- A piece that ends the block is not empty.
  ends_full :
      (blksize : ℕ) (buf ps : List ℕ)
      → (blksize == 0) ≡ false
      → (blksize - share miter buf blksize == 0) ≡ true
      → (is_empty (take (share miter buf blksize) buf) && not (is_empty ps)) ≡ false
  ends_full blksize buf ps more over =
      by_length (take (share miter buf blksize) buf)
        (grind (tests, length-piece miter buf blksize, more, over))
    where
      by_length : (bs : List ℕ) → 0 < length bs → (is_empty bs && not (is_empty ps)) ≡ false
      by_length [] lt = absurd (omega arith)
      by_length (b ∷ bs) lt = refl

  nothing-IsSent :
      (fuel blksize : ℕ) (ps : List ℕ) (d : Device) (r : Pio S)
      → length ps < 4
      → Settled ps r
      → Ending miter fuel blksize [] r
      → IsSent fuel blksize ps [] d (r, d)
  nothing-IsSent fuel blksize ps d r lt settled ending = record {
    waits = ps;
    short = lt;
    sent = ap (λ (bs : List ℕ). push (le_words bs) d.log) (append-nil ps);
    settled = settled;
    ending = ending;
  }

  write_pieces-IsSent :
      (fuel blksize : ℕ) (ps : List ℕ) (s : S) (d : Device)
      → length ps < 4
      → AllBytes ps
      → ((blksize == 0) ≡ true → ps ≡ [])
      → AllBytes (bytes_of (handed miter fuel blksize s))
      → IsSent fuel blksize ps
          (handed miter fuel blksize s)
          d
          (write_pieces miter fuel blksize (scratch_of ps) s d)
  unfolding write_pieces handed
  write_pieces-IsSent zero blksize ps s d lt all none_left bytes =
      nothing-IsSent 0 blksize ps d runs_on lt tt (omega arith)
  write_pieces-IsSent (suc fuel) blksize ps s d lt all none_left bytes =
      elim (Bool-cases (blksize == 0)) [
        | inl over ↦
            at (sym (handed-over miter (suc fuel) blksize s over))
              (sym (pieces_over fuel blksize (scratch_of ps) s d over))
              (nothing-IsSent (suc fuel) blksize ps d (done s) lt (none_left over)
                (grind (tests, over)))
        | inr more ↦ elim (Option-cases (miter.next s)) [
          | inl e ↦
              at (sym (handed-none miter fuel blksize s e))
                (sym (pieces_none fuel blksize (scratch_of ps) s d more e))
                (nothing-IsSent (suc fuel) blksize ps d bug_on lt tt (grind (tests, more)))
          | inr (buf, e) ↦
              let n = share miter buf blksize in
              let piece = take n buf in
              let rest = handed miter fuel (blksize - n) (miter.advance n s) in
              let split = handed-some miter fuel blksize s buf more e in
              let all2 = subst (λ (l : List (List ℕ)). AllBytes (bytes_of l)) split bytes in
              let o =
                write_bytes-IsOwed (blksize - n == 0) piece ps d lt all
                  (AllBytes-left piece (bytes_of rest) all2) in
              let d2 = (written buf blksize (scratch_of ps) d).1 in
              let w =
                write_pieces-IsSent fuel (blksize - n) o.waits (miter.advance n s) d2 o.short o.all
                  (λ over. o.settled over (ends_full blksize buf ps more over))
                  (AllBytes-right piece (bytes_of rest) all2) in
              at (sym split)
                (sym (
                  pieces_step fuel blksize (scratch_of ps) s d buf more e
                  ∙ ap
                      (λ (q : Scratch).
                        write_pieces miter fuel (blksize - n) q (miter.advance n s) d2)
                      o.held))
                (record {
                  waits = w.waits;
                  short = w.short;
                  sent =
                      o.owed (bytes_of rest) (λ over.
                        ap bytes_of (handed-over miter fuel (blksize - n) (miter.advance n s) over))
                      ∙ w.sent;
                  settled = w.settled;
                  ending =
                      Ending-next miter fuel blksize buf rest
                        (write_pieces miter fuel (blksize - n) (scratch_of o.waits)
                          (miter.advance n s) d2).0
                        w.ending;
                })
        ]
      ]
    where
      at :
          {l k : List (List ℕ)} {r t : Pio S × Device}
          → l ≡ k
          → r ≡ t
          → IsSent (suc fuel) blksize ps l d r
          → IsSent (suc fuel) blksize ps k d t
      at {l} {k} {r} {t} p q f =
          subst (λ (x : List (List ℕ)). IsSent (suc fuel) blksize ps x d t) p
            (subst (IsSent (suc fuel) blksize ps l d) q f)

  -- For every iterator and in so many rounds, sdhci_write_block_pio writes to the buffer register
  -- the little-endian words of the bytes (each below 256) of the pieces that it is handed, in order,
  -- but for the word of at most three that wait for more. It is done only if it was handed exactly
  -- the bytes of the block, and then none waits: the last word is filled up with zeros. BUG_ON stops
  -- it only if bytes are missing. And it can run on for more rounds than there are bytes only by as
  -- many empty pieces.
  pub write_block_pio-IsSent :
      (fuel blksz : ℕ) (s : S) (d : Device)
      → AllBytes (bytes_of (handed miter fuel blksz s))
      → IsSent fuel blksz [] (handed miter fuel blksz s) d (write_block_pio miter fuel blksz s d)
  unfolding write_block_pio
  write_block_pio-IsSent fuel blksz s d =
      write_pieces-IsSent fuel blksz [] s d (omega arith) tt (λ over. refl)
