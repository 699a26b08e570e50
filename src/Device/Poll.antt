-- ===== src/Device/Poll.antt =====
-- sdhci.c: the loops of sdhci_reset and sdhci_enable_clk that read a register until the controller
-- is ready or the time is over. The deadline is tested before the register is read, so that a last
-- read follows it.
use linux_sdhci_rtt.Base.{ℕ, zero, suc, ◌<◌, ◌≡◌, refl, sym, subst, ◌≢◌, Bool, true, false, arith}
use linux_sdhci_rtt.Device.{Device, M, ktime_get, ktime_after}

-- `ready v` ends a loop with the value read, `timed_out` by its deadline; `out_of_fuel` is an
-- artefact of the model.
pub data Poll : Type 0 where
  ready : ℕ → Poll
  timed_out : Poll
  out_of_fuel : Poll

-- `while (1) { timedout = ktime_after(ktime_get(), timeout); v = read(); if (done(v)) break;
-- if (timedout) return; }`
module _ (read : M ℕ) (done : ℕ → Bool) (timeout : ℕ) where
  unfoldable pub poll : ℕ → M Poll
  poll zero d = (out_of_fuel, d)
  poll (suc fuel) d =
      let timedout = ktime_after (ktime_get d) timeout in
      let (v, d') = read d in
      elim (done v) [
        | true ↦ (ready v, d')
        | false ↦ elim timedout [ true ↦ (timed_out, d') | false ↦ poll fuel d' ]
      ]

-- The same device `n` accesses later.
abbrev pub later : ℕ → Device → Device
later zero d = d
later (suc n) d = later n (record d { accesses = suc d.accesses })

module _ (read : M ℕ) (done : ℕ → Bool) (timeout : ℕ) where
  -- A loop that ends by `ready` has seen the value that it waits for.
  pub poll_ready :
      (fuel : ℕ) (d : Device) (v : ℕ) → (poll read done timeout fuel d).0 ≡ ready v → done v ≡ true
  unfolding poll
  poll_ready zero d v e = cc
  poll_ready (suc fuel) d v e = ground (arith, poll_ready fuel (read d).1 v)

module _ (read : M ℕ) (counts : (d : Device) → (read d).1 ≡ record d { accesses = suc d.accesses })
    (done : ℕ → Bool) (timeout : ℕ) where
  -- If each read is one access, and the deadline has passed n accesses later with n below the
  -- rounds that are followed, the polling loop ends by the value or by the deadline, whatever the
  -- controller answers.
  pub poll_ends :
      (n fuel : ℕ) (d : Device)
      → n < fuel
      → ktime_after (ktime_get (later n d)) timeout ≡ true
      → (poll read done timeout fuel d).0 ≢ out_of_fuel
  unfolding poll
  poll_ends n zero d h over = elim h [ ]
  poll_ends zero (suc fuel) d h over = ground arith
  poll_ends (suc n) (suc fuel) d h over = ground (
    arith,
    subst (λ e. (poll read done timeout fuel e).0 ≢ out_of_fuel) (sym (counts d))
        (poll_ends n fuel (record d { accesses = suc d.accesses }) (omega arith) over),
  )

  -- A deadline that is never passed leaves the loop to the controller: if the controller is never
  -- ready, no number of rounds ends it.
  pub poll_hangs :
      (fuel : ℕ) (d : Device)
      → ((n : ℕ) → ktime_after (ktime_get (later n d)) timeout ≡ false)
      → ((e : Device) → done (read e).0 ≡ false)
      → (poll read done timeout fuel d).0 ≡ out_of_fuel
  unfolding poll
  poll_hangs zero d never busy = refl
  poll_hangs (suc fuel) d never busy = ground (
    arith,
    never 0,
    busy d,
    subst (λ e. (poll read done timeout fuel e).0 ≡ out_of_fuel) (sym (counts d))
        (poll_hangs fuel (record d { accesses = suc d.accesses }) (λ n. never (suc n)) busy),
  )
