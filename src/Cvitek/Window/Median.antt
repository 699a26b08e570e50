-- ===== src/Cvitek/Window/Median.antt =====
-- The window search of sdhci_cv181x_general_execute_tuning against its specification: the median of a
-- longest window of taps that pass.
use linux_sdhci_rtt.Base.{
  ℕ, zero, suc, ◌+◌, ◌/◌, ◌≤◌, ◌<◌, ◌≡◌, refl, sym, ◌∙◌, subst, Bool, true, false, Option, none,
  some, List, ◌==◌, ltb, leb, u16, arith, tests, inl, inr, Bool-cases, not-ltb→le, leb→le,
  not-leb→lt, ==→eq, if_case,
}
use linux_sdhci_rtt.Cvitek.{check_mask_bit}
use linux_sdhci_rtt.Cvitek.Mask.{marked}
use linux_sdhci_rtt.Cvitek.Window.{
  Window, no_window, start_at, pass_tap, fail_tap, search_tap, search_taps, search_window,
}

-- The `n` taps from `a` on pass.
abbrev pub Run : (ℕ → Bool) → ℕ → ℕ → Type 0
Run failed a n = (j : ℕ) → a ≤ j → j < a + n → failed j ≡ false

-- No window of the first `k` taps is larger than `size`; the tap is the median of one of this size if
-- that is 20 or more, and there is none otherwise.
pub record IsMedian (failed : ℕ → Bool) (k size : ℕ) (tap : Option ℕ) : Type 0 where
  pub longest : (a n : ℕ) → Run failed a n → a + n ≤ k → n ≤ size
  pub chosen :
      20 ≤ size → (a : ℕ) × ((tap ≡ some (a + size / 2)) × (Run failed a size × (a + size ≤ k)))
  pub refused : size < 20 → tap ≡ none

pub IsMedian-ext :
    (failed failed' : ℕ → Bool) (k size : ℕ) (tap : Option ℕ)
    → ((j : ℕ) → j < k → failed j ≡ failed' j)
    → IsMedian failed k size tap
    → IsMedian failed' k size tap
IsMedian-ext failed failed' k size tap same m = record {
  longest = λ a n run le. m.longest a n (λ j ge lt. same j (omega arith) ∙ run j ge lt) le;
  chosen = λ large.
      let (a, (is_tap, (run, le))) = m.chosen large in
      (a, (is_tap, ((λ j ge lt. sym (same j (omega arith)) ∙ run j ge lt), le)));
  refused = m.refused;
}

-- What the loop keeps before tap `k`: its window ends there, passes, and cannot start earlier.
record IsTracked (mask : List ℕ) (k : ℕ) (w : Window) : Type 0 where
  sized : start_at k w.cur_window_idx + w.cur_window_size ≡ k
  run : Run (marked mask) (start_at k w.cur_window_idx) w.cur_window_size
  edge : (p : ℕ) → suc p ≡ start_at k w.cur_window_idx → marked mask p ≡ true
  median : IsMedian (marked mask) k w.max_window_size w.final_tap

-- A window that holds a tap that fails does not exist.
Run-apart :
    (mask : List ℕ) (a n j : ℕ)
    → Run (marked mask) a n
    → a ≤ j
    → j < a + n
    → marked mask j ≡ true
    → ⊥
Run-apart mask a n j run ge lt failed = true_ne_false (sym failed ∙ run j ge lt)
  where
    true_ne_false : true ≡ false → ⊥
    true_ne_false e = cc

module _ (mask : List ℕ) (k : ℕ) (w : Window) (t : IsTracked mask k w) where
  fail_tap-IsTracked : marked mask k ≡ true → IsTracked mask (k + 1) (fail_tap w)
  unfolding fail_tap start_at
  fail_tap-IsTracked failed = record {
    sized = omega arith;
    run = λ j ge below. absurd (omega arith);
    edge = λ p e. subst (λ (q : ℕ). marked mask q ≡ true) (omega arith) failed;
    median = record {
      longest = λ a n run le. elim (Bool-cases (leb (a + n) k)) [
        | inl old ↦ t.median.longest a n run (omega tests)
        | inr new ↦ elim (Bool-cases (n == 0)) [
          | inl none_of ↦ omega tests
          | inr some_of ↦ absurd (Run-apart mask a n k run (grind tests) (grind tests) failed)
        ]
      ];
      chosen = λ large.
          let (a, (is_tap, (run, le))) = t.median.chosen large in (a, (is_tap, (run, omega arith)));
      refused = λ small. t.median.refused small;
    };
  }

  -- Every window that ends behind the tap is the current one, or lies in it.
  longest_grown :
      (size : ℕ)
      → w.max_window_size ≤ size
      → w.cur_window_size + 1 ≤ size
      → (a n : ℕ) → Run (marked mask) a n
      → a + n ≤ k + 1
      → n ≤ size
  longest_grown size old cur a n run le = elim (Bool-cases (leb (a + n) k)) [
    | inl inside ↦ omega (tests, t.median.longest a n run (leb→le _ _ inside))
    | inr ends ↦ elim (Bool-cases (leb (start_at k w.cur_window_idx) a)) [
      | inl within ↦ omega (tests, t.sized)
      | inr beyond ↦
          absurd (
            earlier (start_at k w.cur_window_idx) refl (not-leb→lt _ _ beyond)
              (not-leb→lt _ _ ends))
    ]
  ]
    where
      earlier : (i : ℕ) → i ≡ start_at k w.cur_window_idx → a < i → k < a + n → ⊥
      earlier zero e before over = omega arith
      earlier (suc p) e before over = elim (Bool-cases (leb (a + n) p)) [
        | inl off ↦ omega (tests, t.sized)
        | inr on ↦ Run-apart mask a n p run (omega arith) (not-leb→lt _ _ on) (t.edge p e)
      ]

  module _ (lt : k < 128) (passed : marked mask k ≡ false) where
    grown : u16 (w.cur_window_size + 1) ≡ w.cur_window_size + 1
    grown = omega (arith, t.sized)

    Run-grown : Run (marked mask) (start_at k w.cur_window_idx) (w.cur_window_size + 1)
    Run-grown j ge below = elim (Bool-cases (j == k)) [
      | inl now ↦ subst (λ (q : ℕ). marked mask q ≡ false) (sym (==→eq _ _ now)) passed
      | inr before ↦ t.run j ge (grind (tests, t.sized))
    ]

    pass_tap-IsTracked : IsTracked mask (k + 1) (pass_tap k w)
    unfolding pass_tap start_at
    pass_tap-IsTracked =
        if_case (IsTracked mask (k + 1)) (ltb w.max_window_size (u16 (w.cur_window_size + 1)))
          (λ larger. record {
            sized = omega (arith, t.sized);
            run = subst (Run (marked mask) (start_at k w.cur_window_idx)) (sym grown) Run-grown;
            edge = t.edge;
            median = record {
              longest =
                  longest_grown (u16 (w.cur_window_size + 1)) (omega tests) (omega (arith, grown));
              chosen = λ large. (
                start_at k w.cur_window_idx,
                (
                  grind tests,
                  (
                    subst (Run (marked mask) (start_at k w.cur_window_idx)) (sym grown) Run-grown,
                    omega (arith, t.sized),
                  ),
                ),
              );
              refused = λ small.
                  grind (tests, not-ltb→le w.max_window_size w.cur_window_size, t.median.refused);
            };
          })
          (λ same. record {
            sized = omega (arith, t.sized);
            run = subst (Run (marked mask) (start_at k w.cur_window_idx)) (sym grown) Run-grown;
            edge = t.edge;
            median = record {
              longest = longest_grown w.max_window_size (omega arith) (omega (tests, grown));
              chosen = λ large.
                  let (a, (is_tap, (run, le))) = t.median.chosen large in
                  (a, (is_tap, (run, omega arith)));
              refused = t.median.refused;
            };
          })

search_tap-IsTracked :
    (mask : List ℕ) (k : ℕ) (w : Window)
    → k < 128
    → IsTracked mask k w
    → IsTracked mask (k + 1) (search_tap mask k w)
unfolding search_tap marked
search_tap-IsTracked mask k w lt t =
    if_case (IsTracked mask (k + 1)) (check_mask_bit mask k == 0)
      (λ passed. pass_tap-IsTracked mask k w t lt (ground (arith, passed)))
      (λ failed. fail_tap-IsTracked mask k w t (ground (arith, failed)))

search_taps-IsTracked :
    (mask : List ℕ) (n k : ℕ) (w : Window)
    → k + n ≡ 128
    → IsTracked mask k w
    → IsTracked mask 128 (search_taps mask n k w)
unfolding search_taps
search_taps-IsTracked mask zero k w e t = subst (λ (j : ℕ). IsTracked mask j w) (omega arith) t
search_taps-IsTracked mask (suc n) k w e t =
    search_taps-IsTracked mask n (k + 1) (search_tap mask k w) (omega arith)
      (search_tap-IsTracked mask k w (omega arith) t)

no_window-IsTracked : (mask : List ℕ) → IsTracked mask 0 no_window
unfolding start_at
no_window-IsTracked mask = record {
  sized = refl;
  run = λ j ge lt. absurd (omega arith);
  edge = λ p e. absurd (omega arith);
  median = record {
    longest = λ a n run le. omega arith;
    chosen = λ large. absurd (omega arith);
    refused = λ small. refl;
  };
}

-- The search over the 128 taps finds the size of a longest window of taps that pass, and the final tap
-- is the median of a window of this size if that is 20 or more; else no tap is found.
pub search_window-IsMedian :
    (mask : List ℕ)
    → IsMedian (marked mask) 128 (search_window mask).max_window_size (search_window mask).final_tap
unfolding search_window
search_window-IsMedian mask =
    (search_taps-IsTracked mask 128 0 no_window refl (no_window-IsTracked mask)).median
