-- ===== src/Pio/Fifo.antt =====
-- sdhci_read_block_pio: the bytes of a block, whatever the iterator over the scatter list hands out.
use mathlib.Core.List.{append_assoc, append-nil}
use linux_sdhci_rtt.Base.{
  ℕ, zero, suc, ◌+◌, ◌-◌, ◌<◌, ◌≡◌, refl, ap, ap₂, sym, ◌∙◌, subst, false, some, List, [], ◌∷◌,
  ◌++◌, ◌==◌, length, arith, length-append, take, tests, true, Bool-cases, Option-cases, none, inl,
  inr,
}
use linux_sdhci_rtt.Regs.{buffer}
use linux_sdhci_rtt.Device.{Device, readl}
use linux_sdhci_rtt.Pio.{
  bug_on, runs_on, done, read_block_pio, Miter, Pio, Scratch, read_bytes, read_pieces,
}
use linux_sdhci_rtt.Pio.Words.{AllBytes, scratch_of}
use linux_sdhci_rtt.Pio.Handed.{
  bytes_of, share, handed, handed-over, handed-none, handed-some, Ending, Ending-next, length-piece,
}
use linux_sdhci_rtt.Pio.Unpack.{word_bytes, after_reads, supply, IsRead, read_bytes-IsRead}

supply_append : (m n : ℕ) (d : Device) → supply (m + n) d ≡ supply m d ++ supply n (after_reads m d)
supply_append zero n d = ap (λ (k : ℕ). supply k d) (omega arith)
supply_append (suc m) n d =
    ap (λ (k : ℕ). supply k d) (next m n)
    ∙ ap (λ (r : List ℕ). word_bytes (readl buffer d).0 ++ r) (supply_append m n (readl buffer d).1)
    ∙ sym (append_assoc (word_bytes (readl buffer d).0) (supply m (readl buffer d).1) _)
  where
    next : (m n : ℕ) → suc m + n ≡ suc (m + n)
    next m n = omega arith

after_reads_add : (m n : ℕ) (d : Device) → after_reads (m + n) d ≡ after_reads n (after_reads m d)
after_reads_add zero n d = ap (λ (k : ℕ). after_reads k d) (none_yet n)
  where
    none_yet : (n : ℕ) → 0 + n ≡ n
    none_yet n = omega arith
after_reads_add (suc m) n d =
    ap (λ (k : ℕ). after_reads k d) (next m n) ∙ after_reads_add m n (readl buffer d).1
  where
    next : (m n : ℕ) → suc m + n ≡ suc (m + n)
    next m n = omega arith

module _ {S : Type 0} (miter : Miter S) where
  -- What the loop stores behind the bytes `qs` of `scratch`: the bytes of the words that it has read, but for those that
  -- are left in `scratch`.
  pub record IsFilled (fuel blksize : ℕ) (qs : List ℕ) (pieces : List (List ℕ)) (d : Device)
      (r : Pio S × (List ℕ × Device)) : Type 0 where
    pub left : List ℕ
    pub short : length left < 4
    pub fills : ℕ
    pub count : length r.1.0 ≡ length (bytes_of pieces)
    pub device : r.1.1 ≡ after_reads fills d
    pub stream : qs ++ supply fills d ≡ r.1.0 ++ left
    pub ending : Ending miter fuel blksize pieces r.0

  -- The bytes that go into a piece, put before those of the others.
  abbrev pub with_piece : List ℕ → Pio S × (List ℕ × Device) → Pio S × (List ℕ × Device)
  with_piece bs (r, (more, e)) = (r, (bs ++ more, e))

  pieces_over :
      (fuel blksize : ℕ) (p : Scratch) (s : S) (d : Device)
      → (blksize == 0) ≡ true
      → read_pieces miter (suc fuel) blksize p s d ≡ (done s, ([], d))
  unfolding read_pieces
  pieces_over fuel blksize p s d over = ground (arith, over)

  pieces_none :
      (fuel blksize : ℕ) (p : Scratch) (s : S) (d : Device)
      → (blksize == 0) ≡ false
      → miter.next s ≡ none
      → read_pieces miter (suc fuel) blksize p s d ≡ (bug_on, ([], d))
  unfolding read_pieces
  pieces_none fuel blksize p s d more e = ground (arith, more, e)

  pub pieces_step :
      (fuel blksize : ℕ) (p : Scratch) (s : S) (d : Device) (buf : List ℕ)
      → (blksize == 0) ≡ false
      → miter.next s ≡ some buf
      → read_pieces miter (suc fuel) blksize p s d ≡ (
          let n = share miter buf blksize in
          let r = read_bytes n p d in
          with_piece r.0 (read_pieces miter fuel (blksize - n) r.1.0 (miter.advance n s) r.1.1))
  unfolding read_pieces
  pieces_step fuel blksize p s d buf more e = ground (arith, more, e)

  nothing-IsFilled :
      (fuel blksize : ℕ) (qs : List ℕ) (d : Device) (r : Pio S)
      → length qs < 4
      → Ending miter fuel blksize [] r
      → IsFilled fuel blksize qs [] d (r, ([], d))
  nothing-IsFilled fuel blksize qs d r lt ending = record {
    left = qs;
    short = lt;
    fills = 0;
    count = refl;
    device = refl;
    stream = append-nil qs;
    ending = ending;
  }

  -- The bytes of one piece, and behind them those of the others.
  next-IsFilled :
      (fuel blksize : ℕ) (qs buf : List ℕ) (rest : List (List ℕ)) (d : Device)
      (got : List ℕ × (Scratch × Device)) (w : Pio S × (List ℕ × Device))
      (o : IsRead (share miter buf blksize) qs d got)
      → IsFilled fuel (blksize - share miter buf blksize) o.left rest (after_reads o.fills d) w
      → IsFilled
          (suc fuel)
          blksize
          qs
          (take (share miter buf blksize) buf ∷ rest)
          d
          (with_piece got.0 w)
  next-IsFilled fuel blksize qs buf rest d got w o f = record {
    left = f.left;
    short = f.short;
    fills = o.fills + f.fills;
    count = omega (
      arith,
      o.count,
      f.count,
      length-append got.0 w.1.0,
      length-piece miter buf blksize,
      length-append (take (share miter buf blksize) buf) (bytes_of rest),
    );
    device = f.device ∙ sym (after_reads_add o.fills f.fills d);
    stream =
        ap (λ (r : List ℕ). qs ++ r) (supply_append o.fills f.fills d)
        ∙ sym (append_assoc qs (supply o.fills d) (supply f.fills (after_reads o.fills d)))
        ∙ ap (λ (r : List ℕ). r ++ supply f.fills (after_reads o.fills d)) o.stream
        ∙ append_assoc got.0 o.left (supply f.fills (after_reads o.fills d))
        ∙ ap (λ (r : List ℕ). got.0 ++ r) f.stream
        ∙ sym (append_assoc got.0 w.1.0 f.left);
    ending = Ending-next miter fuel blksize buf rest w.0 f.ending;
  }

  read_pieces-IsFilled :
      (fuel blksize : ℕ) (qs : List ℕ) (s : S) (d : Device)
      → length qs < 4
      → AllBytes qs
      → IsFilled fuel blksize qs
          (handed miter fuel blksize s)
          d
          (read_pieces miter fuel blksize (scratch_of qs) s d)
  unfolding read_pieces handed
  read_pieces-IsFilled zero blksize qs s d lt all =
      nothing-IsFilled 0 blksize qs d runs_on lt (omega arith)
  read_pieces-IsFilled (suc fuel) blksize qs s d lt all = elim (Bool-cases (blksize == 0)) [
    | inl over ↦
        at (sym (handed-over miter (suc fuel) blksize s over))
          (sym (pieces_over fuel blksize (scratch_of qs) s d over))
          (nothing-IsFilled (suc fuel) blksize qs d (done s) lt (grind (tests, over)))
    | inr more ↦ elim (Option-cases (miter.next s)) [
      | inl e ↦
          at (sym (handed-none miter fuel blksize s e))
            (sym (pieces_none fuel blksize (scratch_of qs) s d more e))
            (nothing-IsFilled (suc fuel) blksize qs d bug_on lt (grind (tests, more)))
      | inr (buf, e) ↦
          let n = share miter buf blksize in
          let got = read_bytes n (scratch_of qs) d in
          let o = read_bytes-IsRead n qs d lt all in
          let next = read_pieces miter fuel (blksize - n) in
          at (sym (handed-some miter fuel blksize s buf more e))
            (sym (
              pieces_step fuel blksize (scratch_of qs) s d buf more e
              ∙ ap (λ (t : Scratch × Device). with_piece got.0 (next t.0 (miter.advance n s) t.1))
                  (ap₂ (λ (q : Scratch) (x : Device). (q, x)) o.held o.device)))
            (next-IsFilled fuel blksize qs buf (handed miter fuel (blksize - n) (miter.advance n s))
              d got (next (scratch_of o.left) (miter.advance n s) (after_reads o.fills d)) o
              (read_pieces-IsFilled fuel (blksize - n) o.left (miter.advance n s)
                (after_reads o.fills d) o.short o.all))
    ]
  ]
    where
      at :
          {l k : List (List ℕ)} {r t : Pio S × (List ℕ × Device)}
          → l ≡ k
          → r ≡ t
          → IsFilled (suc fuel) blksize qs l d r
          → IsFilled (suc fuel) blksize qs k d t
      at {l} {k} {r} {t} p q f =
          subst (λ (x : List (List ℕ)). IsFilled (suc fuel) blksize qs x d t) p
            (subst (IsFilled (suc fuel) blksize qs l d) q f)

  -- For every iterator and in so many rounds, sdhci_read_block_pio stores as many bytes as the pieces take that it is
  -- handed: those of the words that the buffer register gives, from the lowest byte of each and in order. It reads no
  -- more words than these bytes need. It is done only if it was handed the bytes of the block, BUG_ON stops it only
  -- if some are missing, and it can run on for more rounds than there are bytes only by as many empty pieces.
  pub read_block_pio-IsFilled :
      (fuel blksz : ℕ) (s : S) (d : Device)
      → IsFilled fuel blksz [] (handed miter fuel blksz s) d (read_block_pio miter fuel blksz s d)
  unfolding read_block_pio
  read_block_pio-IsFilled fuel blksz s d = read_pieces-IsFilled fuel blksz [] s d (omega arith) tt
