-- ===== src/Slots/Reachable.antt =====
-- The driver as a step relation: a new request, an interrupt, the interrupt thread, the timers, the
-- work that completes requests, and the card's removal; and the states that it reaches.
use linux_sdhci_rtt.Base.{ℕ, ◌≡◌, false}
use linux_sdhci_rtt.Host.{Host}
use linux_sdhci_rtt.Finish.{is_done}
use linux_sdhci_rtt.Irq.Handler.{irq}
use linux_sdhci_rtt.Done.{
  request, request_atomic, thread_irq, complete_work, timeout_timer, timeout_data_timer, card_event,
}
use linux_sdhci_rtt.Slots.{slots, refs}
use linux_sdhci_rtt.Slots.Safe.{IsSafe, Unique}
use linux_sdhci_rtt.Slots.Finish.{IsTracked}
use linux_sdhci_rtt.Slots.Done.{
  complete_work-IsTracked, timeout_timer-IsTracked, timeout_data_timer-IsTracked,
  card_event-IsTracked, request_atomic-IsTracked,
}
use linux_sdhci_rtt.Slots.Handler.{irq-IsTracked}
use linux_sdhci_rtt.Slots.Retry.{IsFair, request-IsTracked, thread_irq-IsTracked}

-- No pointer leads to the request, and it is not done.
pub record IsNew (id : ℕ) (h : Host) : Type 0 where
  pub unknown : refs id (slots h) ≡ false
  pub undone : is_done id h.mrqs_done ≡ false

-- The host before its first request.
pub record IsIdle (h : Host) : Type 0 where
  pub quiet : (id : ℕ) → refs id (slots h) ≡ false
  pub empty : (id : ℕ) → is_done id h.mrqs_done ≡ false
  pub unique : Unique h.mrqs_done

-- The step relation of the driver.
pub data Step (pio others : ℕ → Host → Host) : Host → Host → Type 0 where
  start : (id : ℕ) (h : Host) → IsNew id h → Step pio others h (request others id h)
  start_atomic : (id : ℕ) (h : Host) → IsNew id h → Step pio others h (request_atomic id h).0
  interrupt : (h : Host) → Step pio others h (irq pio h).0
  thread : (h : Host) → Step pio others h (thread_irq others h)
  work : (h : Host) → Step pio others h (complete_work h)
  command_timer : (h : Host) → Step pio others h (timeout_timer h)
  data_timer : (h : Host) → Step pio others h (timeout_data_timer h)
  card : (h : Host) → Step pio others h (card_event h)

pub data Reachable (pio others : ℕ → Host → Host) : Host → Type 0 where
  idle : {h : Host} → IsIdle h → Reachable pio others h
  next : {g h : Host} → Reachable pio others g → Step pio others g h → Reachable pio others h

module _ (pio others : ℕ → Host → Host)
    (pio-IsTracked : (id : ℕ) (h : Host) → IsTracked h → IsTracked (pio id h))
    (fair : IsFair others) where
  Step-IsTracked : {g h : Host} → Step pio others g h → IsTracked g → IsTracked h
  Step-IsTracked (start id h new) safe =
      request-IsTracked others fair id h new.unknown new.undone safe
  Step-IsTracked (start_atomic id h new) safe = request_atomic-IsTracked id h new.undone safe
  Step-IsTracked (interrupt h) safe = irq-IsTracked pio pio-IsTracked h safe
  Step-IsTracked (thread h) safe = thread_irq-IsTracked others fair h safe
  Step-IsTracked (work h) safe = complete_work-IsTracked h safe
  Step-IsTracked (command_timer h) safe = timeout_timer-IsTracked h safe
  Step-IsTracked (data_timer h) safe = timeout_data_timer-IsTracked h safe
  Step-IsTracked (card h) safe = card_event-IsTracked h safe

  Reachable-IsTracked : {h : Host} → Reachable pio others h → IsTracked h
  Reachable-IsTracked (idle i) = record { quiet = λ id _. i.quiet id; unique = i.unique }
  Reachable-IsTracked (next r s) = Step-IsTracked s (Reachable-IsTracked r)

  -- In every state that the driver reaches from an idle one, by requests that are new when they are
  -- started, interrupts, its thread, the work that completes requests, its timers and the removal of
  -- the card, a request that a pointer of the host leads to is not done, and no request is in two of
  -- the slots for requests that are done. The transfer of PIO blocks keeps the tracker safe, and so
  -- do those who take the lock between two tries, who also leave requests alone that they cannot
  -- know.
  pub Reachable-IsSafe : {h : Host} → Reachable pio others h → IsSafe (slots h)
  Reachable-IsSafe r = Reachable-IsTracked r
