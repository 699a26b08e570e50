-- ===== src/Cvitek/Tuning/Marks.antt =====
-- The tries of sdhci_cv181x_general_execute_tuning: which taps the result marks, and the tap that is chosen.
use linux_sdhci_rtt.Base.{
  ℕ, zero, suc, ◌+◌, ◌≤◌, ◌<◌, ◌≡◌, refl, sym, ◌∙◌, subst, Bool, true, false, not, Option, some,
  List, ◌==◌, length, arith, tests, u8, inl, inr, Bool-cases, ==→eq, if_case,
}
use linux_sdhci_rtt.Device.{Device, M}
use linux_sdhci_rtt.Cvitek.{set_mask_bit, no_marks}
use linux_sdhci_rtt.Cvitek.Mask.{
  marked, marked-set_mask_bit_self, marked-set_mask_bit_ne, length-set_mask_bit, marked-no_marks,
}
use linux_sdhci_rtt.Cvitek.Window.{search_window}
use linux_sdhci_rtt.Cvitek.Window.Median.{IsMedian, IsMedian-ext, search_window-IsMedian}
use linux_sdhci_rtt.Cvitek.Tuning.{
  Results, record_tap, try_tap, try_taps, Tuned, tap_word, use_tap, general_execute_tuning,
  prepare_tuning,
}

module _ (send : M ℕ) (d : Device) where
  -- The controller and the card before a tap is tried.
  abbrev pub before_tap : ℕ → Device
  before_tap zero = d
  before_tap (suc tap) = (try_tap send tap (before_tap tap)).1

  -- Whether a try of the tap fails.
  abbrev pub tap_failed : ℕ → Bool
  tap_failed tap = not ((try_tap send tap (before_tap tap)).0.0 == 0)

-- The mask marks the taps before `k` that failed, and no other.
record IsMarked (failed : ℕ → Bool) (k : ℕ) (mask : List ℕ) : Type 0 where
  size : length mask ≡ 16
  told : (j : ℕ) → j < k → marked mask j ≡ failed j
  fresh : (j : ℕ) → k ≤ j → marked mask j ≡ false

module _ (failed : ℕ → Bool) (k : ℕ) (mask : List ℕ) (m : IsMarked failed k mask) where
  told_next :
      (mask' : List ℕ)
      → marked mask' k ≡ failed k
      → ((j : ℕ) → j < k → marked mask' j ≡ marked mask j)
      → (j : ℕ) → j < suc k
      → marked mask' j ≡ failed j
  told_next mask' now old j below = elim (Bool-cases (j == k)) [
    | inl here ↦ subst (λ (i : ℕ). marked mask' i ≡ failed i) (sym (==→eq j k here)) now
    | inr before ↦ old j (grind tests) ∙ m.told j (grind tests)
  ]

  unmarked-IsMarked : failed k ≡ false → IsMarked failed (suc k) mask
  unmarked-IsMarked passed = record {
    size = m.size;
    told = told_next mask (m.fresh k (omega arith) ∙ sym passed) (λ j below. refl);
    fresh = λ j ge. m.fresh j (omega arith);
  }

  set_mask_bit-IsMarked : k < 128 → failed k ≡ true → IsMarked failed (suc k) (set_mask_bit mask k)
  set_mask_bit-IsMarked lt bad = record {
    size = length-set_mask_bit mask k ∙ m.size;
    told =
        told_next (set_mask_bit mask k)
          (marked-set_mask_bit_self mask k (omega (arith, m.size)) ∙ sym bad)
          (λ j below. other j (λ e. omega arith));
    fresh = λ j ge. other j (λ e. omega arith) ∙ m.fresh j (omega arith);
  }
    where
      other : (j : ℕ) → (j ≡ k → ⊥) → marked (set_mask_bit mask k) j ≡ marked mask j
      other j ne = marked-set_mask_bit_ne mask k j (omega (arith, m.size)) ne

  record_tap-IsMarked :
      (err lag : ℕ) (lags : List ℕ)
      → k < 128
      → failed k ≡ not (err == 0)
      → IsMarked failed
          (suc k)
          (record_tap k
            (err, lag)
            (record { tuning_result = mask; rx_lead_lag_result = lags })).tuning_result
  unfolding record_tap
  record_tap-IsMarked err lag lags lt same =
      if_case (IsMarked failed (suc k)) (err == 0)
        (λ passed. unmarked-IsMarked (ground (arith, same, passed)))
        (λ bad. set_mask_bit-IsMarked lt (ground (arith, same, bad)))

no_marks-IsMarked : (failed : ℕ → Bool) → IsMarked failed 0 no_marks
no_marks-IsMarked failed = record {
  size = refl;
  told = λ j below. absurd (omega arith);
  fresh = λ j ge. marked-no_marks j;
}

try_taps-IsMarked :
    (send : M ℕ) (d : Device) (n k : ℕ) (r : Results)
    → k + n ≡ 128
    → IsMarked (tap_failed send d) k r.tuning_result
    → IsMarked (tap_failed send d) 128 (try_taps send n k r (before_tap send d k)).0.tuning_result
unfolding try_taps
try_taps-IsMarked send d zero k r e m =
    subst (λ (j : ℕ). IsMarked (tap_failed send d) j r.tuning_result) (omega arith) m
try_taps-IsMarked send d (suc n) k r e m =
    let seen = (try_tap send k (before_tap send d k)).0 in
    let r' = record_tap k seen r in
    subst
      (λ (j : ℕ).
        IsMarked (tap_failed send d) 128
          (try_taps send n j r' (before_tap send d (suc k))).0.tuning_result)
      (next k)
      (try_taps-IsMarked send d n (suc k) r' (omega arith) (
        record_tap-IsMarked (tap_failed send d) k r.tuning_result m seen.0 seen.1
          r.rx_lead_lag_result (omega arith) refl))
  where
    next : (j : ℕ) → suc j ≡ j + 1
    next j = omega arith

-- The device when the tries begin: three reads and two writes of the control register later.
module _ (send : M ℕ) (d : Device) where
  abbrev pub tuning_begins : Device
  tuning_begins = (prepare_tuning d).1

  abbrev no_results : Results
  no_results = record { tuning_result = no_marks; rx_lead_lag_result = no_marks }

  abbrev tried : List ℕ
  tried = (try_taps send 128 0 no_results tuning_begins).0.tuning_result

  cached :
      (t : Tuned)
      → (general_execute_tuning send d).0 ≡ some t
      → t.final_tap ≡ u8 (tap_word (search_window tried).final_tap)
  unfolding general_execute_tuning use_tap
  cached t e = ground (arith, e)

  -- If the wait for the reset ends, the tap that is used is the median of a longest window of taps whose tries
  -- all succeeded, of 20 taps or more, and 255 is cached if there is none.
  pub general_execute_tuning-IsMedian :
      (t : Tuned)
      → (general_execute_tuning send d).0 ≡ some t
      → (size : ℕ) × ((tap : Option ℕ) × (IsMedian (tap_failed send tuning_begins) 128 size tap
            × (t.final_tap ≡ u8 (tap_word tap))))
  general_execute_tuning-IsMedian t e =
      let m =
        try_taps-IsMarked send tuning_begins 128 0 no_results refl
          (no_marks-IsMarked (tap_failed send tuning_begins)) in
      (
        (search_window tried).max_window_size,
        (
          (search_window tried).final_tap,
          (
            IsMedian-ext (marked tried) (tap_failed send tuning_begins) 128 _ _ m.told
                (search_window-IsMedian tried),
            cached t e,
          ),
        ),
      )
