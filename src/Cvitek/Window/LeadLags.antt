-- ===== src/Cvitek/Window/LeadLags.antt =====
-- The lead/lag loop of sdhci_cv181x_general_execute_tuning: when it finds no window, and the size that
-- the rate is divided by stays 0.
use linux_sdhci_rtt.Base.{
  ℕ, zero, suc, ◌+◌, ◌≤◌, ◌<◌, ◌≡◌, refl, subst, sym, ap, ◌∙◌, true, false, none, List, ◌==◌, ltb,
  ◌&&◌, is_some, arith, tests, inl, inr, Bool-cases, ==→eq, ◌↔◌, if_case,
}
use linux_sdhci_rtt.Cvitek.{check_mask_bit}
use linux_sdhci_rtt.Cvitek.Mask.{marked}
use linux_sdhci_rtt.Cvitek.Window.{
  LeadLag, no_lead_lag, is_phase1, start_at, keep_lead_lag, ends_window, lag_sample, lead_sample,
  search_lead_lags, search_lead_lag,
}

-- No sample of 0 comes before a sample of 1, from `k` to `m`.
abbrev pub IsFlat : List ℕ → ℕ → ℕ → Type 0
IsFlat mask k m = (a b : ℕ) → k ≤ a → a < b → b < m → marked mask a ≡ false → marked mask b ≡ false

-- The states of the loop: before the first 0, in zeros, and in the ones behind them.
abbrev InOnes : LeadLag → Type 0
InOnes w = (w.cur_window_idx ≡ none) × ((w.cur_window_size ≡ 0) × (w.max_lead_lag_size ≡ 0))

record InZeros (k : ℕ) (w : LeadLag) : Type 0 where
  started : is_some w.cur_window_idx ≡ true
  sized : 0 < w.cur_window_size
  bounded : w.cur_window_size ≤ k
  lagging : is_phase1 w.phase ≡ false
  unkept : w.max_lead_lag_size ≡ 0

record InLead (k : ℕ) (w : LeadLag) : Type 0 where
  started : is_some w.cur_window_idx ≡ true
  sized : 0 < w.cur_window_size
  bounded : w.cur_window_size ≤ k
  leading : is_phase1 w.phase ≡ true
  kept : 0 < w.max_lead_lag_size

module _ (mask : List ℕ) (k : ℕ) (small : k < 128) (w : LeadLag) where
  lead_sample-InOnes : InOnes w → InOnes (lead_sample w)
  unfolding lead_sample
  lead_sample-InOnes (i, (s, m)) = ground (arith, i, s, m)

  lag_sample-InZeros_first : InOnes w → InZeros (k + 1) (lag_sample k w)
  unfolding lag_sample start_at
  lag_sample-InZeros_first (i, (s, m)) = record {
    started = refl;
    sized = omega arith;
    bounded = omega arith;
    lagging = refl;
    unkept = m;
  }

  lag_sample-InZeros : InZeros k w → InZeros (k + 1) (lag_sample k w)
  unfolding lag_sample start_at
  lag_sample-InZeros z = record {
    started = refl;
    sized = omega (arith, z.sized, z.bounded);
    bounded = omega (arith, z.bounded);
    lagging = refl;
    unkept = z.unkept;
  }

  lead_sample-InLead :
      is_some w.cur_window_idx ≡ true
      → 0 < w.cur_window_size
      → w.cur_window_size ≤ k
      → InLead (k + 1) (lead_sample w)
  unfolding lead_sample keep_lead_lag
  lead_sample-InLead i s b =
      if_case (InLead (k + 1)) (is_some w.cur_window_idx && ltb 0 w.cur_window_size)
        (λ window. record {
          started = i;
          sized = omega arith;
          bounded = omega arith;
          leading = refl;
          kept = omega arith;
        })
        (λ no. absurd (grind (tests, i, s)))

search-none : (mask : List ℕ) (k : ℕ) (w : LeadLag) → search_lead_lags mask 0 k w ≡ w
unfolding search_lead_lags
search-none mask k w = refl

module _ (mask : List ℕ) (n k : ℕ) (w : LeadLag) where
  search-high :
      (check_mask_bit mask k == 0) ≡ false
      → search_lead_lags mask (suc n) k w ≡ search_lead_lags mask n (k + 1) (lead_sample w)
  unfolding search_lead_lags
  search-high high = ground (arith, high)

  search-low :
      (check_mask_bit mask k == 0) ≡ true
      → ends_window w ≡ false
      → search_lead_lags mask (suc n) k w ≡ search_lead_lags mask n (k + 1) (lag_sample k w)
  unfolding search_lead_lags
  search-low low on = ground (arith, low, on)

  search-end :
      (check_mask_bit mask k == 0) ≡ true
      → ends_window w ≡ true
      → search_lead_lags mask (suc n) k w ≡ keep_lead_lag w
  unfolding search_lead_lags
  search-end low ends = ground (arith, low, ends)

ends_window-InLead : (k : ℕ) (w : LeadLag) → InLead k w → ends_window w ≡ true
unfolding ends_window
ends_window-InLead k w l = grind (tests, l.leading, l.sized)

ends_window_not : (w : LeadLag) → is_phase1 w.phase ≡ false → ends_window w ≡ false
unfolding ends_window
ends_window_not w p = ground (arith, p)

ends_window-InOnes : (w : LeadLag) → InOnes w → ends_window w ≡ false
unfolding ends_window
ends_window-InOnes w (i, (s, m)) = grind (tests, s)

-- From the ones behind zeros, a window is kept.
kept-InLead :
    (mask : List ℕ) (n k : ℕ) (w : LeadLag)
    → k + n ≤ 128
    → InLead k w
    → 0 < (search_lead_lags mask n k w).max_lead_lag_size
unfolding keep_lead_lag
kept-InLead mask zero k w le l = rw (search-none mask k w) l.kept
kept-InLead mask (suc n) k w le l = elim (Bool-cases (check_mask_bit mask k == 0)) [
  | inl low ↦ rw (search-end mask n k w low (ends_window-InLead k w l)) l.sized
  | inr high ↦ rw (search-high mask n k w high) (
      kept-InLead mask n (k + 1) (lead_sample w) (omega arith)
        (lead_sample-InLead mask k (omega arith) w l.started l.sized l.bounded))
]

unmarked-low : (mask : List ℕ) (k : ℕ) → (check_mask_bit mask k == 0) ≡ true → marked mask k ≡ false
unfolding marked
unmarked-low mask k low = ground (arith, low)

marked-high : (mask : List ℕ) (k : ℕ) → (check_mask_bit mask k == 0) ≡ false → marked mask k ≡ true
unfolding marked
marked-high mask k high = ground (arith, high)

-- In zeros, no window is kept only if nothing but zeros follows.
zeros_follow :
    (mask : List ℕ) (n k : ℕ) (w : LeadLag)
    → k + n ≤ 128
    → InZeros k w
    → (search_lead_lags mask n k w).max_lead_lag_size ≡ 0
    → (b : ℕ) → k ≤ b
    → b < k + n
    → marked mask b ≡ false
zeros_follow mask zero k w le z e b ge lt = absurd (omega arith)
zeros_follow mask (suc n) k w le z e b ge lt = elim (Bool-cases (check_mask_bit mask k == 0)) [
  | inl low ↦ elim (Bool-cases (b == k)) [
    | inl here ↦
        subst (λ (j : ℕ). marked mask j ≡ false) (sym (==→eq _ _ here)) (unmarked-low mask k low)
    | inr later ↦
        zeros_follow mask n (k + 1) (lag_sample k w) (omega arith)
          (lag_sample-InZeros mask k (omega arith) w z)
          (sym (
              ap (λ (v : LeadLag). v.max_lead_lag_size)
                (search-low mask n k w low (ends_window_not w z.lagging)))
            ∙ e)
          b (grind tests) (omega arith)
  ]
  | inr high ↦ absurd (
      omega (
        arith,
        e,
        ap (λ (v : LeadLag). v.max_lead_lag_size) (search-high mask n k w high),
        kept-InLead mask n (k + 1) (lead_sample w) (omega arith)
            (lead_sample-InLead mask k (omega arith) w z.started z.sized z.bounded),
      ))
]

-- Nothing but zeros keeps no window.
zeros_keep_none :
    (mask : List ℕ) (n k : ℕ) (w : LeadLag)
    → k + n ≤ 128
    → InZeros k w
    → ((b : ℕ) → k ≤ b → b < k + n → marked mask b ≡ false)
    → (search_lead_lags mask n k w).max_lead_lag_size ≡ 0
zeros_keep_none mask zero k w le z zeros = rw (search-none mask k w) z.unkept
zeros_keep_none mask (suc n) k w le z zeros = elim (Bool-cases (check_mask_bit mask k == 0)) [
  | inl low ↦ rw (search-low mask n k w low (ends_window_not w z.lagging)) (
      zeros_keep_none mask n (k + 1) (lag_sample k w) (omega arith)
        (lag_sample-InZeros mask k (omega arith) w z)
        (λ b ge lt. zeros b (omega arith) (omega arith)))
  | inr high ↦ absurd (grind (arith, marked-high mask k high, zeros k (omega arith) (omega arith)))
]

module _ (mask : List ℕ) where
  unkept-IsFlat :
      (n k : ℕ) (w : LeadLag)
      → k + n ≤ 128
      → InOnes w
      → (search_lead_lags mask n k w).max_lead_lag_size ≡ 0
      → IsFlat mask k (k + n)
  unkept-IsFlat zero k w le o e a b ge lt below unmarked = absurd (omega arith)
  unkept-IsFlat (suc n) k w le o e a b ge lt below unmarked =
      elim (Bool-cases (check_mask_bit mask k == 0)) [
        | inl low ↦
            zeros_follow mask n (k + 1) (lag_sample k w) (omega arith)
              (lag_sample-InZeros_first mask k (omega arith) w o)
              (sym (
                  ap (λ (v : LeadLag). v.max_lead_lag_size)
                    (search-low mask n k w low (ends_window-InOnes w o)))
                ∙ e)
              b (omega arith) (omega arith)
        | inr high ↦ elim (Bool-cases (a == k)) [
          | inl here ↦ absurd (
              grind (
                arith,
                marked-high mask k high,
                subst (λ (j : ℕ). marked mask j ≡ false) (==→eq a k here) unmarked,
              ))
          | inr later ↦
              unkept-IsFlat n (k + 1) (lead_sample w) (omega arith)
                (lead_sample-InOnes mask k (omega arith) w o)
                (sym (ap (λ (v : LeadLag). v.max_lead_lag_size) (search-high mask n k w high)) ∙ e)
                a b (grind tests) lt (omega arith) unmarked
        ]
      ]

  IsFlat-unkept :
      (n k : ℕ) (w : LeadLag)
      → k + n ≤ 128
      → InOnes w
      → IsFlat mask k (k + n)
      → (search_lead_lags mask n k w).max_lead_lag_size ≡ 0
  IsFlat-unkept zero k w le o flat = rw (search-none mask k w) o.1.1
  IsFlat-unkept (suc n) k w le o flat = elim (Bool-cases (check_mask_bit mask k == 0)) [
    | inl low ↦ rw (search-low mask n k w low (ends_window-InOnes w o)) (
        zeros_keep_none mask n (k + 1) (lag_sample k w) (omega arith)
          (lag_sample-InZeros_first mask k (omega arith) w o)
          (λ b ge lt. flat k b (omega arith) (omega arith) (omega arith) (unmarked-low mask k low)))
    | inr high ↦ rw (search-high mask n k w high) (
        IsFlat-unkept n (k + 1) (lead_sample w) (omega arith)
          (lead_sample-InOnes mask k (omega arith) w o)
          (λ a b ge lt below. flat a b (omega arith) lt (omega arith)))
  ]

-- The divisor of the rate, the size of the lead/lag window, is 0 exactly if no sample of 1 comes after
-- one of 0 among the 128.
pub search_lead_lag_zero :
    (mask : List ℕ) → ((search_lead_lag mask).max_lead_lag_size ≡ 0) ↔ IsFlat mask 0 128
unfolding search_lead_lag
search_lead_lag_zero mask = (
  unkept-IsFlat mask 128 0 no_lead_lag (omega arith) (refl, (refl, refl)),
  IsFlat-unkept mask 128 0 no_lead_lag (omega arith) (refl, (refl, refl)),
)
