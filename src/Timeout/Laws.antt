-- ===== src/Timeout/Laws.antt =====
-- The loop of sdhci_calc_timeout.
use native.Mathlib.Nat.{pow-suc, div-lt_iff_lt-mul}
use linux_sdhci_rtt.Base.{
  ℕ, zero, suc, ◌+◌, ◌-◌, ◌*◌, ◌/◌, ◌^◌, ◌≤◌, ◌<◌, ◌≡◌, refl, ap, subst, ◌⊎◌, inl, inr, Bool, true,
  false, ltb, leb, if◌then◌else◌, u32, arith, tests, Bool-cases,
}
use linux_sdhci_rtt.Timeout.{count_up, count_for}

-- What the loop has found at its end, from a count and the timeout `base * 2 ^ count` on.
pub record Counted (base target count : ℕ) : Type 0 where
  pub capped : count ≤ 15
  pub enough : count < 15 → target ≤ base * 2 ^ count
  pub least : 0 < count → base * 2 ^ (count - 1) < target

double : (base n : ℕ) → base * 2 ^ suc n ≡ base * 2 ^ n * 2
double base n = omega (arith, ap (λ (t : ℕ). base * t) (pow-suc 2 n))

pub pow_grows : (k n : ℕ) → n ≤ k → 2 ^ n ≤ 2 ^ k
pow_grows zero zero h = omega arith
pow_grows zero (suc n) h = absurd (omega arith)
pow_grows (suc k) zero h = omega (arith, pow-suc 2 k, pow_grows k zero (omega arith))
pow_grows (suc k) (suc n) h = omega (arith, pow-suc 2 k, pow-suc 2 n, pow_grows k n (omega arith))

no_wrap : (base n : ℕ) → base < 2 ^ 18 → n ≤ 14 → base * 2 ^ n < 2 ^ 32
no_wrap base n small h = omega (arith, product base (2 ^ n) (2 ^ 14) (pow_grows 14 n h))
  where
    product : (a b c : ℕ) → b ≤ c → a * b ≤ a * c
    product a b c le = grind arith

module _ (base target : ℕ) (small : base < 2 ^ 18) where
  count_up-Counted :
      (fuel count : ℕ)
      → count + fuel ≡ 15
      → (0 < count → base * 2 ^ (count - 1) < target)
      → Counted base target (count_up fuel target count (base * 2 ^ count))
  unfolding count_up
  count_up-Counted zero count e below = record {
    capped = omega arith;
    enough = λ h. absurd (omega arith);
    least = below;
  }
  count_up-Counted (suc fuel) count e below = elim (Bool-cases (ltb (base * 2 ^ count) target)) [
    | inr done ↦
        rw (done, count_up)
          (record { capped = omega arith; enough = λ _. omega tests; least = below })
    | inl more ↦ elim (Bool-cases (leb 15 (count + 1))) [
      | inl last ↦
          rw (more, count_up)
            (rw (last, count_up)
              (record {
                capped = omega tests;
                enough = λ h. absurd (omega tests);
                least = λ _. omega (tests, one_less count);
              }))
      | inr on ↦
          rw (more, count_up)
            (rw (on, count_up)
              (rw (next count (omega tests)) (
                count_up-Counted fuel (count + 1) (omega arith)
                  (λ _. omega (tests, one_less count)))))
    ]
  ]
    where
      one_less : (n : ℕ) → base * 2 ^ (n + 1 - 1) ≡ base * 2 ^ n
      one_less n = ap (λ (t : ℕ). base * 2 ^ t) (omega arith)

      next : (n : ℕ) → n + 1 < 15 → u32 (base * 2 ^ n * 2) ≡ base * 2 ^ (n + 1)
      next n h = omega (
        arith,
        double base n,
        no_wrap base (suc n) small (omega arith),
        ap (λ (t : ℕ). base * 2 ^ t) (plus n),
      )
        where
          plus : (n : ℕ) → n + 1 ≡ suc n
          plus n = omega arith

-- What a count and its verdict say of the target.
abbrev pub Timely : ℕ → ℕ → ℕ × Bool → Type 0
Timely base target (count, true) = (count ≡ 14) × (base * 2 ^ 14 < target)
Timely base target (count, false) =
    (count < 15) × (target ≤ base * 2 ^ count) × ((count ≡ 0) ⊎ (base * 2 ^ (count - 1) < target))

count-Timely :
    (base target n : ℕ)
    → Counted base target n
    → Timely base target (if leb 15 n then (14, true) else (n, false))
count-Timely base target n c = elim (Bool-cases (leb 15 n)) [
  | inl big ↦ rw big (
    refl,
    omega (tests, c.least (omega tests), c.capped, ap (λ (t : ℕ). base * 2 ^ t) (fourteen big)),
  )
  | inr small ↦ rw small (omega tests, c.enough (omega tests), zero_or n c.least)
]
  where
    fourteen : leb 15 n ≡ true → n - 1 ≡ 14
    fourteen big = omega (tests, c.capped)

    zero_or :
        (k : ℕ) → (0 < k → base * 2 ^ (k - 1) < target) → (k ≡ 0) ⊎ (base * 2 ^ (k - 1) < target)
    zero_or zero h = inl refl
    zero_or (suc k) h = inr (h (omega arith))

-- For a timeout clock of at least 32 kHz: a count that is not too big is below 15 and gives the
-- controller a timeout, in microseconds, of at least the target, and the next smaller count does
-- not; a count that is too big is 14, and the timeout that it gives is below the target.
pub count_for-Timely :
    (timeout_clk target : ℕ)
    → 32 ≤ timeout_clk
    → Timely (8192000 / timeout_clk) target (count_for timeout_clk target)
unfolding count_for
count_for-Timely timeout_clk target h = count-Timely base target (count_up 15 target 0 base) (
    subst (λ b. Counted base target (count_up 15 target 0 b)) (omega arith)
      (count_up-Counted base target small 15 0 refl (λ lt. absurd (omega arith))))
  where
    base : ℕ
    base = 8192000 / timeout_clk

    small : base < 2 ^ 18
    small = (div-lt_iff_lt-mul {k = timeout_clk} (omega arith)).1 (omega arith)
