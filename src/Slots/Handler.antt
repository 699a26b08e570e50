-- ===== src/Slots/Handler.antt =====
-- sdhci.c: sdhci_irq as a whole, as it bears on the request tracker.
use linux_sdhci_rtt.Base.{
  if_both, ℕ, zero, suc, ◌≡◌, refl, ◌∙◌, Bool, ◌||◌, ◌==◌, true, false, Option, none, some, List,
  [], ◌∷◌, if◌then◌else◌, arith, has, clear, subst, sym, bit_or, bit_and, ◌+◌,
}
use linux_sdhci_rtt.Regs.{int_cmd_mask, int_data_mask, int_bus_power, int_status}
use linux_sdhci_rtt.Device.{readl, writel}
use linux_sdhci_rtt.Host.{Host, on_dev}
use linux_sdhci_rtt.Finish.{is_done}
use linux_sdhci_rtt.Irq.{cmd_irq, data_irq}
use linux_sdhci_rtt.Irq.Handler.{
  Service, IrqReturn, Split, card_irq, sdio_irq, served, unexpected_irq, irq_round, irq_loop,
  split_done, complete, leave_irq, wake_if, complete_ready, defer_done, irq, on_host,
}
use linux_sdhci_rtt.Slots.{slots}
use linux_sdhci_rtt.Slots.Safe.{IsSafe, Unique}
use linux_sdhci_rtt.Slots.Finish.{IsTracked, FirstIsTracked}
use linux_sdhci_rtt.Slots.Irq.{cmd_irq-IsTracked, data_irq-IsTracked}

card_irq-slots : (intmask : ℕ) (s : Service) → slots (card_irq intmask s).host ≡ slots s.host
unfolding card_irq
card_irq-slots intmask s = ground arith

sdio_irq-slots : (intmask : ℕ) (h : Host) → slots (sdio_irq intmask h) ≡ slots h
unfolding sdio_irq
sdio_irq-slots intmask h = ground arith

unexpected_irq-slots : (left : ℕ) (s : Service) → slots (unexpected_irq left s).host ≡ slots s.host
unfolding unexpected_irq
unexpected_irq-slots left s = ground arith

-- What is left of the tracker, and what is completed.
split_done-left :
    (defer : ℕ → Bool) (n : ℕ) (l : List (Option ℕ))
    → is_done n (split_done defer l).left ≡ true
    → is_done n l ≡ true
unfolding split_done is_done
split_done-left defer n [] e = e
split_done-left defer n (none ∷ l) e = split_done-left defer n l e
split_done-left defer n (some id ∷ l) e = ground (arith, split_done-left defer n l)

absent_left :
    (defer : ℕ → Bool) (n : ℕ) (l : List (Option ℕ))
    → is_done n l ≡ false
    → is_done n (split_done defer l).left ≡ false
absent_left defer n l e = ground (arith, split_done-left defer n l)

Unique-split_done :
    (defer : ℕ → Bool) (l : List (Option ℕ)) → Unique l → Unique (split_done defer l).left
unfolding split_done
Unique-split_done defer [] u = u
Unique-split_done defer (none ∷ l) u = Unique-split_done defer l u
Unique-split_done defer (some id ∷ l) u =
    if_both (λ (p : Split). Unique p.left) (defer id)
      (absent_left defer id l u.0, Unique-split_done defer l u.1) (Unique-split_done defer l u.1)

complete-slots : (ids : List ℕ) (h : Host) → slots (complete ids h) ≡ slots h
complete-slots [] h = refl
complete-slots (id ∷ ids) h = complete-slots ids (record h { finished = id ∷ h.finished })

leave_irq-IsTracked :
    (ready : List ℕ) (h : Host) (r : IrqReturn) → IsTracked h → FirstIsTracked (leave_irq ready h r)
unfolding leave_irq
leave_irq-IsTracked ready h r safe = subst IsSafe (sym (complete-slots ready h)) safe

complete_ready-IsTracked : (s : Service) → IsTracked s.host → FirstIsTracked (complete_ready s)
unfolding complete_ready
complete_ready-IsTracked s safe =
    let p = split_done (defer_done s.host) s.host.mrqs_done in
    leave_irq-IsTracked p.ready (record (s.host) { mrqs_done = p.left }) (wake_if p.wake s.result)
      (record {
        quiet = λ n e. safe.quiet n (split_done-left (defer_done s.host) n s.host.mrqs_done e);
        unique = Unique-split_done (defer_done s.host) s.host.mrqs_done safe.unique;
      })

module _ (pio : ℕ → Host → Host)
    (pio-IsTracked : (id : ℕ) (h : Host) → IsTracked h → IsTracked (pio id h)) where
  irq_round-IsTracked :
      (intmask : ℕ) (s : Service) → IsTracked s.host → IsTracked (irq_round pio intmask s).host
  unfolding irq_round
  irq_round-IsTracked intmask s safe =
      let ack = bit_and intmask (bit_or int_cmd_mask (bit_or int_data_mask int_bus_power)) in
      let s0 = on_host (on_dev (writel ack int_status)) s in
      let s1 = card_irq intmask s0 in
      let safe1 = subst IsSafe (sym (card_irq-slots intmask s0)) safe in
      let p : Host × ℕ =
        if has intmask int_cmd_mask
        then cmd_irq (bit_and intmask int_cmd_mask) s1.host
        else (s1.host, 0) in
      let safe2 : FirstIsTracked p =
        if_both FirstIsTracked (has intmask int_cmd_mask)
          (cmd_irq-IsTracked (bit_and intmask int_cmd_mask) s1.host safe1) safe1 in
      let all = bit_or intmask p.1 in
      let h3 =
        if has all int_data_mask then data_irq pio (bit_and all int_data_mask) p.0 else p.0 in
      let safe3 : IsTracked h3 =
        if_both IsTracked (has all int_data_mask)
          (data_irq-IsTracked pio pio-IsTracked (bit_and all int_data_mask) p.0 safe2) safe2 in
      subst IsSafe
        (sym (
          unexpected_irq-slots (clear 32 all served) (record s1 { host = sdio_irq all h3 })
          ∙ sdio_irq-slots all h3))
        safe3

  more_rounds :
      (loops next : ℕ) (s : Service) (last : Bool)
      → IsTracked s.host
      → IsTracked (irq_loop pio loops next s).host
      → IsTracked
          (elim last as (λ x. Service) [ true ↦ s | false ↦ irq_loop pio loops next s ]).host
  more_rounds loops next s true safe rest = safe
  more_rounds loops next s false safe rest = rest

  irq_loop-IsTracked :
      (loops intmask : ℕ) (s : Service)
      → IsTracked s.host
      → IsTracked (irq_loop pio loops intmask s).host
  unfolding irq_loop
  irq_loop-IsTracked zero intmask s safe = safe
  irq_loop-IsTracked (suc loops) intmask s safe =
      let s1 = irq_round pio intmask s in
      let (next, d) = readl int_status s1.host.dev in
      let s2 = record s1 { host = record (s1.host) { dev = d } } in
      let safe2 = irq_round-IsTracked intmask s safe in
      more_rounds loops next s2 (next == 0) safe2 (irq_loop-IsTracked loops next s2 safe2)

  -- The interrupt handler keeps the tracker safe.
  pub irq-IsTracked : (h : Host) → IsTracked h → FirstIsTracked (irq pio h)
  unfolding irq
  irq-IsTracked h safe =
      let (intmask, d) = readl int_status h.dev in
      let h1 = record h { dev = d } in
      let s : Service = record { host = h1; result = IrqReturn.irq_none; unexpected = 0 } in
      if_both FirstIsTracked h.runtime_suspended safe (
        if_both FirstIsTracked (intmask == 0 || intmask == 0xffffffff)
          (leave_irq-IsTracked [] h1 IrqReturn.irq_none safe)
          (complete_ready-IsTracked (irq_loop pio 16 intmask s)
            (irq_loop-IsTracked 16 intmask s safe)))

-- How often a request stands in the slots, or in a list.
abbrev pub count_slots : ℕ → List (Option ℕ) → ℕ
count_slots n [] = 0
count_slots n (none ∷ l) = count_slots n l
count_slots n (some id ∷ l) = (if id == n then 1 else 0) + count_slots n l

abbrev pub count : ℕ → List ℕ → ℕ
count n [] = 0
count n (id ∷ l) = (if id == n then 1 else 0) + count n l
