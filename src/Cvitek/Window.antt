-- ===== src/Cvitek/Window.antt =====
-- platform/cvitek/sdhci-cv181x.c: the two loops of sdhci_cv181x_general_execute_tuning over the results
-- of the 128 taps: the search for the largest window of taps that pass, and the one for the window
-- of the lead/lag samples. An index is an `s32` that starts at -1, which is `none` here.
pub mod Median
pub mod LeadLags
use linux_sdhci_rtt.Base.{
  ℕ, zero, suc, ◌+◌, ◌*◌, ◌/◌, ◌%◌, ◌^◌, Bool, true, false, Option, none, some, List, ◌==◌, ltb,
  leb, if◌then◌else◌, u16, ◌&&◌, is_some, u32,
}
use linux_sdhci_rtt.Cvitek.{check_mask_bit, tune_max_phcode, tap_window_thld}

pub record Window : Type 0 where
  pub cur_window_idx : Option ℕ
  pub cur_window_size : ℕ
  pub max_window_idx : Option ℕ
  pub max_window_size : ℕ
  pub final_tap : Option ℕ

abbrev pub no_window : Window
no_window = record {
  cur_window_idx = none;
  cur_window_size = 0;
  max_window_idx = none;
  max_window_size = 0;
  final_tap = none;
}

-- `if (-1 == idx) idx = k`.
unfoldable pub start_at : ℕ → Option ℕ → ℕ
start_at k none = k
start_at k (some i) = i

-- The branch of a tap that passes.
unfoldable pub pass_tap : ℕ → Window → Window
unfolding start_at
pass_tap k w =
    let idx = start_at k w.cur_window_idx in
    let size = u16 (w.cur_window_size + 1) in
    if ltb w.max_window_size size
    then record {
      cur_window_idx = some idx;
      cur_window_size = size;
      max_window_idx = some idx;
      max_window_size = size;
      final_tap = if leb tap_window_thld size then some (idx + size / 2) else w.final_tap;
    }
    else record w { cur_window_idx = some idx; cur_window_size = size }

unfoldable pub fail_tap : Window → Window
fail_tap w = record w { cur_window_idx = none; cur_window_size = 0 }

unfoldable pub search_tap : List ℕ → ℕ → Window → Window
unfolding pass_tap fail_tap check_mask_bit
search_tap tuning_result k w =
    if check_mask_bit tuning_result k == 0 then pass_tap k w else fail_tap w

-- The taps from `k` on, `n` of them.
unfoldable pub search_taps : List ℕ → ℕ → ℕ → Window → Window
unfolding search_tap
search_taps tuning_result zero k w = w
search_taps tuning_result (suc n) k w =
    search_taps tuning_result n (k + 1) (search_tap tuning_result k w)

unfoldable pub search_window : List ℕ → Window
unfolding search_taps
search_window tuning_result = search_taps tuning_result tune_max_phcode 0 no_window

-- `rx_lead_lag_phase`: -1, 0 or 1.
pub data Phase : Type 0 where
  unknown phase0 phase1 : Phase

pub record LeadLag : Type 0 where
  pub cur_window_idx : Option ℕ
  pub cur_window_size : ℕ
  pub max_lead_lag_idx : Option ℕ
  pub max_lead_lag_size : ℕ
  pub phase : Phase

abbrev pub no_lead_lag : LeadLag
no_lead_lag = record {
  cur_window_idx = none;
  cur_window_size = 0;
  max_lead_lag_idx = none;
  max_lead_lag_size = 0;
  phase = Phase.unknown;
}

abbrev pub is_phase1 : Phase → Bool
is_phase1 Phase.phase1 = true
is_phase1 _ = false

-- `max_lead_lag_idx = cur_window_idx; max_lead_lag_size = cur_window_size;`
unfoldable pub keep_lead_lag : LeadLag → LeadLag
keep_lead_lag w = record w {
  max_lead_lag_idx = w.cur_window_idx;
  max_lead_lag_size = w.cur_window_size;
}

-- Whether a sample of 0 ends the window, and with it the loop.
unfoldable pub ends_window : LeadLag → Bool
ends_window w = is_phase1 w.phase && ltb 0 w.cur_window_size

unfoldable pub lag_sample : ℕ → LeadLag → LeadLag
unfolding start_at
lag_sample k w = record w {
  cur_window_idx = some (start_at k w.cur_window_idx);
  cur_window_size = u16 (w.cur_window_size + 1);
  phase = Phase.phase0;
}

unfoldable pub lead_sample : LeadLag → LeadLag
unfolding keep_lead_lag
lead_sample w =
    if is_some w.cur_window_idx && ltb 0 w.cur_window_size
    then keep_lead_lag
        (record w { cur_window_size = u16 (w.cur_window_size + 1); phase = Phase.phase1 })
    else record w { cur_window_size = 0; phase = Phase.phase1 }

unfoldable pub search_lead_lags : List ℕ → ℕ → ℕ → LeadLag → LeadLag
unfolding ends_window keep_lead_lag lag_sample lead_sample
search_lead_lags result zero k w = w
search_lead_lags result (suc n) k w = elim (check_mask_bit result k == 0) [
  | true ↦ elim (ends_window w) [
    | true ↦ keep_lead_lag w
    | false ↦ search_lead_lags result n (k + 1) (lag_sample k w)
  ]
  | false ↦ search_lead_lags result n (k + 1) (lead_sample w)
]

unfoldable pub search_lead_lag : List ℕ → LeadLag
unfolding search_lead_lags
search_lead_lag result = search_lead_lags result tune_max_phcode 0 no_lead_lag

-- `max_window_size * 100 / max_lead_lag_size`, which is undefined where the divisor is 0.
unfoldable pub rate : ℕ → ℕ → Option ℕ
rate max_window_size zero = none
rate max_window_size (suc n) = some (u32 (max_window_size * 100 / suc n))
