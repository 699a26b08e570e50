-- ===== src/Irq/Handler.antt =====
-- sdhci.c: sdhci_enable_sdio_irq_nolock, sdhci_defer_done and sdhci_irq.
use linux_sdhci_rtt.Base.{
  ℕ, zero, suc, bit_and, bit_or, Bool, true, false, ◌&&◌, ◌||◌, Option, none, some, List, [], ◌∷◌,
  ◌==◌, is_some, if◌then◌else◌, has, clear,
}
use linux_sdhci_rtt.Regs.{
  int_status, int_cmd_mask, int_data_mask, int_bus_power, int_card_insert, int_card_remove,
  int_card_int, int_retune, int_error, present_state, card_present, req_use_dma, device_dead,
}
use linux_sdhci_rtt.Device.{M, ◌>>=◌, ◌>>◌, ret, get, readl, writel}
use linux_sdhci_rtt.Mmc.{Data, Cookie}
use linux_sdhci_rtt.Timeout.{write_ier}
use linux_sdhci_rtt.Reset.{card_irqs}
use linux_sdhci_rtt.Host.{Host, on_dev}
use linux_sdhci_rtt.Irq.{cmd_irq, data_irq}

-- `irqreturn_t`.
pub data IrqReturn : Type 0 where
  irq_none irq_handled irq_wake_thread : IrqReturn

unfoldable pub enable_sdio_irq_nolock : Bool → M (Unit {0})
unfolding write_ier
enable_sdio_irq_nolock enable = do
  d ← get
  if has d.flags device_dead
      then ret tt
      else write_ier (if enable then bit_or d.ier int_card_int else clear 32 d.ier int_card_int)

-- What the loop of sdhci_irq keeps.
pub record Service : Type 0 where
  pub host : Host
  pub result : IrqReturn
  pub unexpected : ℕ

-- A card was inserted or removed: the other event is waited for, and the thread is told.
unfoldable pub card_irq : ℕ → Service → Service
unfolding write_ier
card_irq intmask s =
    if has intmask card_irqs
    then record s {
      host =
          record (on_dev
            (do
              state ← readl present_state
              d ← get
              write_ier (
                  bit_or (clear 32 d.ier card_irqs)
                    (if has state card_present then int_card_remove else int_card_insert))
              writel (bit_and intmask card_irqs) int_status)
            s.host) { thread_isr = bit_or s.host.thread_isr (bit_and intmask card_irqs) };
      result = irq_wake_thread;
    }
    else s

unfoldable pub sdio_irq : ℕ → Host → Host
unfolding enable_sdio_irq_nolock
sdio_irq intmask h =
    if has intmask int_card_int && has h.dev.ier int_card_int
    then on_dev (enable_sdio_irq_nolock false) h
    else h

-- The bits that the round has dealt with.
abbrev pub served : ℕ
served = bit_or card_irqs (
    bit_or int_cmd_mask (
      bit_or int_data_mask
        (bit_or int_error (bit_or int_bus_power (bit_or int_retune int_card_int)))))

unfoldable pub unexpected_irq : ℕ → Service → Service
unexpected_irq left s = if left == 0 then s else record s {
  host = on_dev (writel left int_status) s.host;
  unexpected = bit_or s.unexpected left;
}

abbrev pub handled : IrqReturn → IrqReturn
handled irq_none = irq_handled
handled r = r

abbrev pub on_host : (Host → Host) → Service → Service
on_host f s = record s { host = f s.host }

module _ (pio : ℕ → Host → Host) where
  -- One round of the loop.
  unfoldable pub irq_round : ℕ → Service → Service
  unfolding card_irq cmd_irq data_irq sdio_irq unexpected_irq
  irq_round intmask s =
      let ack = bit_and intmask (bit_or int_cmd_mask (bit_or int_data_mask int_bus_power)) in
      let s1 = card_irq intmask (on_host (on_dev (writel ack int_status)) s) in
      let (h2, more) =
        if has intmask int_cmd_mask
        then cmd_irq (bit_and intmask int_cmd_mask) s1.host
        else (s1.host, 0) in
      let all = bit_or intmask more in
      let h3 = if has all int_data_mask then data_irq pio (bit_and all int_data_mask) h2 else h2 in
      let s4 = unexpected_irq (clear 32 all served) (record s1 { host = sdio_irq all h3 }) in
      record s4 { result = handled s4.result }

  -- `do { ... } while (intmask && --max_loops)`: `loops` rounds at most.
  unfoldable pub irq_loop : ℕ → ℕ → Service → Service
  unfolding irq_round
  irq_loop zero intmask s = s
  irq_loop (suc loops) intmask s =
      let s1 = irq_round intmask s in
      let (next, d) = readl int_status s1.host.dev in
      let s2 = record s1 { host = record (s1.host) { dev = d } } in
      elim (next == 0) [ true ↦ s2 | false ↦ irq_loop loops next s2 ]

-- A request that waits for a reset, or whose data must be unmapped, is left to the thread.
abbrev pub is_mapped : Option Data → Bool
is_mapped none = false
is_mapped (some x) = elim x.host_cookie [ Cookie.mapped ↦ true | _ ↦ false ]

unfoldable pub defer_done : Host → ℕ → Bool
defer_done h id =
    h.pending_reset
    || h.always_defer_done
    || has h.dev.flags req_use_dma && is_mapped (h.store id).payload

-- The loop over `mrqs_done`: what stays, what is completed at once, and whether the thread is
-- woken.
pub record Split : Type 0 where
  pub left : List (Option ℕ)
  pub ready : List ℕ
  pub wake : Bool

unfoldable pub split_done : (ℕ → Bool) → List (Option ℕ) → Split
split_done defer [] = record { left = []; ready = []; wake = false }
split_done defer (none ∷ slots) =
    let rest = split_done defer slots in record rest { left = none ∷ rest.left }
split_done defer (some id ∷ slots) =
    let rest = split_done defer slots in
    if defer id
    then record rest { left = some id ∷ rest.left; wake = true }
    else record rest { left = none ∷ rest.left; ready = id ∷ rest.ready }

-- mmc_request_done for each of a list, in its order; `finished` is newest first.
abbrev pub complete : List ℕ → Host → Host
complete [] h = h
complete (id ∷ ids) h = complete ids (record h { finished = id ∷ h.finished })

abbrev pub wake_if : Bool → IrqReturn → IrqReturn
wake_if true r = irq_wake_thread
wake_if false r = r

-- From the label `out` on, and the completion of the requests outside the lock.
unfoldable pub leave_irq : List ℕ → Host → IrqReturn → Host × IrqReturn
leave_irq ready h r = (complete ready h, wake_if (is_some h.deferred_cmd) r)

unfoldable pub complete_ready : Service → Host × IrqReturn
unfolding leave_irq split_done defer_done
complete_ready s =
    let p = split_done (defer_done s.host) s.host.mrqs_done in
    leave_irq p.ready (record (s.host) { mrqs_done = p.left }) (wake_if p.wake s.result)

unfoldable pub irq : (ℕ → Host → Host) → Host → Host × IrqReturn
unfolding irq_loop complete_ready leave_irq
irq pio h =
    let (intmask, d) = readl int_status h.dev in
    let h1 = record h { dev = d } in
    if h.runtime_suspended
    then (h, irq_none)
    else if intmask == 0 || intmask == 0xffffffff
    then leave_irq [] h1 irq_none
    else complete_ready
        (irq_loop pio 16 intmask (record { host = h1; result = irq_none; unexpected = 0 }))
