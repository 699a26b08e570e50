-- ===== src/Tune/Laws.antt =====
-- The tuning of sdhci.c: what the controller is left with, and when it succeeds.
use linux_sdhci_rtt.Base.{
  ℕ, zero, suc, ◌≤◌, ◌<◌, ◌≡◌, refl, ap, sym, ◌∙◌, subst, Bool, true, false, has, clear, u16,
  bit_and, bit-word, arith, bit, bit-bit_and, has-bit, inl, inr, Bool-cases,
}
use linux_sdhci_rtt.Regs.{
  host_control2, ctrl_exec_tuning, ctrl_tuned_clk, int_enable, signal_enable, reset_cmd, reset_data,
}
use linux_sdhci_rtt.Device.{Device, readw, writew, writel}
use linux_sdhci_rtt.Device.Quiet.{Quiet, last_write, writel-Quiet}
use linux_sdhci_rtt.Reset.{do_reset}
use linux_sdhci_rtt.Reset.Quiet.{do_reset-Quiet}
use linux_sdhci_rtt.Host.{Host, on_dev}
use linux_sdhci_rtt.Tune.{
  reset_tuning, abort_tuning, end_tuning, send_tuning, tuning_loop, TuningErr, success, timed_out,
  failed,
}

-- Neither the tuned clock nor the tuning itself is selected: the fixed sampling clock is used.
abbrev pub IsFixed : Device → Type 0
IsFixed d =
    (has (last_write host_control2 d.log) ctrl_tuned_clk ≡ false)
    × (has (last_write host_control2 d.log) ctrl_exec_tuning ≡ false)

reset_tuning-IsFixed : (d : Device) → IsFixed (reset_tuning d).1
unfolding reset_tuning readw writew clear bit
reset_tuning-IsFixed d =
    let v = clear 16 (clear 16 (readw host_control2 d).0 ctrl_tuned_clk) ctrl_exec_tuning in
    (
      ground (
        arith,
        has-bit 7 (u16 v),
        bit-word 16 7 v (omega arith),
        bit-bit_and 7 (bit_and (readw host_control2 d).0 0xff7f) 0xffbf,
        bit-bit_and 7 (readw host_control2 d).0 0xff7f,
      ),
      ground (
        arith,
        has-bit 6 (u16 v),
        bit-word 16 6 v (omega arith),
        bit-bit_and 6 (bit_and (readw host_control2 d).0 0xff7f) 0xffbf,
      ),
    )

pub end_tuning-Quiet : Quiet host_control2 end_tuning
unfolding end_tuning
end_tuning-Quiet d =
    writel-Quiet host_control2 d.ier signal_enable refl (writel d.ier int_enable d).1
    ∙ writel-Quiet host_control2 d.ier int_enable refl d

pub kept-IsFixed :
    (d e : Device)
    → last_write host_control2 e.log ≡ last_write host_control2 d.log
    → IsFixed d
    → IsFixed e
kept-IsFixed d e same (clk, exec) = (
  ap (λ (v : ℕ). has v ctrl_tuned_clk) same ∙ clk,
  ap (λ (v : ℕ). has v ctrl_exec_tuning) same ∙ exec,
)

abort_tuning-IsFixed : (d : Device) → IsFixed (abort_tuning d).1
unfolding abort_tuning
abort_tuning-IsFixed d =
    let d1 = (reset_tuning d).1 in
    let d2 = (do_reset reset_cmd d1).1 in
    let d3 = (do_reset reset_data d2).1 in
    kept-IsFixed d1 (end_tuning d3).1
      (end_tuning-Quiet d3
        ∙ do_reset-Quiet host_control2 reset_data refl d2
        ∙ do_reset-Quiet host_control2 reset_cmd refl d1)
      (reset_tuning-IsFixed d)

-- What a result of the loop stands for. After a success the controller, asked last, has said that the tuning is
-- over and its clock selected; after a failure the fixed clock is selected.
abbrev pub Outcome : TuningErr → Host → Type 0
Outcome success h =
    (d : Device) × ((h.dev ≡ (readw host_control2 d).1)
      × ((has (readw host_control2 d).0 ctrl_tuned_clk ≡ true)
          × ((has (readw host_control2 d).0 ctrl_exec_tuning ≡ false) × (h.tuning_done ≡ true))))
Outcome _ h = IsFixed h.dev

module _ (others : ℕ → Host → Host) (wait : Host → Host) (wide : Bool) (id opcode : ℕ) where
  abbrev sent : Host → Host
  sent = send_tuning others wait wide id opcode

  abbrev run : ℕ → Host → TuningErr × Host
  run = tuning_loop others wait wide id opcode

  -- A round that sees the tuning go on.
  abbrev pub round : Host → Host
  round h = record (sent h) { dev = (readw host_control2 (sent h).dev).1 }

  abbrev pub answer : Host → ℕ
  answer h = (readw host_control2 (sent h).dev).0

  run_timed_out :
      (n : ℕ) (h : Host)
      → (sent h).tuning_done ≡ false
      → run (suc n) h ≡ (timed_out, on_dev abort_tuning (sent h))
  unfolding tuning_loop
  run_timed_out n h e = ground (arith, e)

  run_on :
      (n : ℕ) (h : Host)
      → (sent h).tuning_done ≡ true
      → has (answer h) ctrl_exec_tuning ≡ true
      → run (suc n) h ≡ run n (round h)
  unfolding tuning_loop
  run_on n h e f = ground (arith, e, f)

  run_tuned :
      (n : ℕ) (h : Host)
      → (sent h).tuning_done ≡ true
      → has (answer h) ctrl_exec_tuning ≡ false
      → has (answer h) ctrl_tuned_clk ≡ true
      → run (suc n) h ≡ (success, round h)
  unfolding tuning_loop
  run_tuned n h e f g = ground (arith, e, f, g)

  run_untuned :
      (n : ℕ) (h : Host)
      → (sent h).tuning_done ≡ true
      → has (answer h) ctrl_exec_tuning ≡ false
      → has (answer h) ctrl_tuned_clk ≡ false
      → run (suc n) h ≡ (failed, on_dev reset_tuning (round h))
  unfolding tuning_loop
  run_untuned n h e f g = ground (arith, e, f, g)

  run_none : (h : Host) → run 0 h ≡ (failed, on_dev reset_tuning h)
  unfolding tuning_loop
  run_none h = refl

  abbrev Ends : TuningErr × Host → Type 0
  Ends r = Outcome r.0 r.1

  -- The loop ends after at most `n` commands: with a success if the controller says so, and else with the fixed
  -- clock selected.
  pub tuning_loop-Outcome :
      (n : ℕ) (h : Host)
      → Outcome
          (tuning_loop others wait wide id opcode n h).0
          (tuning_loop others wait wide id opcode n h).1
  tuning_loop-Outcome zero h = subst Ends (sym (run_none h)) (reset_tuning-IsFixed h.dev)
  tuning_loop-Outcome (suc n) h = elim (Bool-cases (sent h).tuning_done) [
    | inr late ↦ subst Ends (sym (run_timed_out n h late)) (abort_tuning-IsFixed (sent h).dev)
    | inl here ↦ elim (Bool-cases (has (answer h) ctrl_exec_tuning)) [
      | inl on ↦ subst Ends (sym (run_on n h here on)) (tuning_loop-Outcome n (round h))
      | inr off ↦ elim (Bool-cases (has (answer h) ctrl_tuned_clk)) [
        | inl good ↦
            subst Ends (sym (run_tuned n h here off good))
              ((sent h).dev, (refl, (good, (off, here))))
        | inr bad ↦
            subst Ends (sym (run_untuned n h here off bad)) (reset_tuning-IsFixed (round h).dev)
      ]
    ]
  ]

  abbrev pub rounds : ℕ → Host → Host
  rounds zero h = h
  rounds (suc n) h = rounds n (round h)

  -- If every command is answered, and the controller ends the tuning with its clock selected at a round before the
  -- last that is followed, the tuning succeeds.
  pub tuning_loop_succeeds :
      (n loops : ℕ) (h : Host)
      → n < loops
      → ((j : ℕ) → j ≤ n → (send_tuning others wait wide id opcode (rounds j h)).tuning_done ≡ true)
      → ((j : ℕ) → j < n → has (answer (rounds j h)) ctrl_exec_tuning ≡ true)
      → has (answer (rounds n h)) ctrl_exec_tuning ≡ false
      → has (answer (rounds n h)) ctrl_tuned_clk ≡ true
      → (tuning_loop others wait wide id opcode loops h).0 ≡ success
  tuning_loop_succeeds n zero h lt done on off good = absurd (omega arith)
  tuning_loop_succeeds zero (suc loops) h lt done on off good =
      ap (λ (r : TuningErr × Host). r.0) (run_tuned loops h (done 0 (omega arith)) off good)
  tuning_loop_succeeds (suc n) (suc loops) h lt done on off good =
      ap (λ (r : TuningErr × Host). r.0)
        (run_on loops h (done 0 (omega arith)) (on 0 (omega arith)))
      ∙ tuning_loop_succeeds n loops (round h) (omega arith) (λ j le. done (suc j) (omega arith))
          (λ j below. on (suc j) (omega arith)) off good
