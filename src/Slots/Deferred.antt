-- ===== src/Slots/Deferred.antt =====
-- sdhci.c: the end of sdhci_irq, which leaves requests that are done to the thread or completes them, and
-- sdhci_defer_done, which decides.
use linux_sdhci_rtt.Base.{
  ℕ, ◌+◌, ◌≡◌, refl, ap, ◌∙◌, Bool, true, false, Option, none, some, List, [], ◌∷◌, ◌==◌,
  if◌then◌else◌, has, arith, ==→eq, Bool-cases, inl, inr, ◌⊎◌,
}
use linux_sdhci_rtt.Regs.{req_use_dma}
use linux_sdhci_rtt.Mmc.{Data, Cookie}
use linux_sdhci_rtt.Host.{Host}
use linux_sdhci_rtt.Irq.Handler.{
  Service, IrqReturn, split_done, complete, leave_irq, complete_ready, defer_done, is_mapped,
}
use linux_sdhci_rtt.Slots.Handler.{count, count_slots}

-- A request waits for the thread while a reset is pending, if the host wants it for every request, or if its data
-- is mapped for DMA.
abbrev pub Waits : Host → ℕ → Type 0
Waits h n =
    ((h.pending_reset ≡ true) ⊎ (h.always_defer_done ≡ true))
    ⊎ ((has h.dev.flags req_use_dma ≡ true)
        × ((x : Data) × (((h.store n).payload ≡ some x) × (x.host_cookie ≡ Cookie.mapped))))

mapped_cookie :
    (c : Cookie)
    → (elim c as (λ x. Bool) [ Cookie.mapped ↦ true | _ ↦ false ]) ≡ true
    → c ≡ Cookie.mapped
mapped_cookie Cookie.unmapped e = absurd (ground (arith, e))
mapped_cookie Cookie.pre_mapped e = absurd (ground (arith, e))
mapped_cookie Cookie.mapped e = refl

mapped_data :
    (o : Option Data)
    → is_mapped o ≡ true
    → (x : Data) × ((o ≡ some x) × (x.host_cookie ≡ Cookie.mapped))
mapped_data none e = absurd (ground (arith, e))
mapped_data (some x) e = (x, (refl, mapped_cookie x.host_cookie e))

is_mapped-some :
    (o : Option Data) (x : Data) → o ≡ some x → x.host_cookie ≡ Cookie.mapped → is_mapped o ≡ true
is_mapped-some o x e c =
    ap is_mapped e
    ∙ ap (λ (k : Cookie). elim k as (λ x. Bool) [ Cookie.mapped ↦ true | _ ↦ false ]) c

defer_done-Waits : (h : Host) (n : ℕ) → defer_done h n ≡ true → Waits h n
unfolding defer_done
defer_done-Waits h n e = elim (Bool-cases h.pending_reset) [
  | inl p ↦ inl (inl p)
  | inr p ↦ elim (Bool-cases h.always_defer_done) [
    | inl a ↦ inl (inr a)
    | inr a ↦
        inr (ground (arith, e, p, a), mapped_data (h.store n).payload (ground (arith, e, p, a)))
  ]
]

Waits-defer_done : (h : Host) (n : ℕ) → Waits h n → defer_done h n ≡ true
unfolding defer_done
Waits-defer_done h n (inl (inl p)) = ground (arith, p)
Waits-defer_done h n (inl (inr a)) = ground (arith, a)
Waits-defer_done h n (inr (d, (x, (e, c)))) =
    ground (arith, d, is_mapped-some (h.store n).payload x e c)

split_done-left :
    (defer : ℕ → Bool) (n : ℕ) (l : List (Option ℕ))
    → count_slots n (split_done defer l).left ≡ (if defer n then count_slots n l else 0)
unfolding split_done
split_done-left defer n [] = ground arith
split_done-left defer n (none ∷ l) = split_done-left defer n l
split_done-left defer n (some id ∷ l) = elim (Bool-cases (id == n)) [
  | inl same ↦ ground (arith, same, ap defer (==→eq id n same), split_done-left defer n l)
  | inr other ↦ ground (arith, other, split_done-left defer n l)
]

split_done-ready :
    (defer : ℕ → Bool) (n : ℕ) (l : List (Option ℕ))
    → count n (split_done defer l).ready ≡ (if defer n then 0 else count_slots n l)
unfolding split_done
split_done-ready defer n [] = ground arith
split_done-ready defer n (none ∷ l) = split_done-ready defer n l
split_done-ready defer n (some id ∷ l) = elim (Bool-cases (id == n)) [
  | inl same ↦ ground (arith, same, ap defer (==→eq id n same), split_done-ready defer n l)
  | inr other ↦ ground (arith, other, split_done-ready defer n l)
]

mrqs_done-complete : (ids : List ℕ) (h : Host) → (complete ids h).mrqs_done ≡ h.mrqs_done
mrqs_done-complete [] h = refl
mrqs_done-complete (id ∷ ids) h = mrqs_done-complete ids (record h { finished = id ∷ h.finished })

count-complete :
    (n : ℕ) (ids : List ℕ) (h : Host)
    → count n (complete ids h).finished ≡ count n ids + count n h.finished
count-complete n [] h = omega arith
count-complete n (id ∷ ids) h =
    omega (arith, count-complete n ids (record h { finished = id ∷ h.finished }))

-- Where a request that was done has gone: it is still in its slots and not completed, or completed as often as it
-- was done and in no slot.
abbrev pub Parted : Service → ℕ → Host × IrqReturn → Type 0
Parted s n r =
    (Waits s.host n
      × ((count_slots n r.0.mrqs_done ≡ count_slots n s.host.mrqs_done)
          × (count n r.0.finished ≡ count n s.host.finished)))
    ⊎ (¬ (Waits s.host n)
        × ((count_slots n r.0.mrqs_done ≡ 0)
            × (count n r.0.finished ≡ count_slots n s.host.mrqs_done + count n s.host.finished)))

-- What the end of sdhci_irq leaves in the slots, and what it has completed.
parted_slots :
    (s : Service) (n : ℕ)
    → count_slots n (complete_ready s).0.mrqs_done
      ≡ (if defer_done s.host n then count_slots n s.host.mrqs_done else 0)
unfolding complete_ready leave_irq
parted_slots s n =
    let p = split_done (defer_done s.host) s.host.mrqs_done in
    ap (count_slots n) (mrqs_done-complete p.ready (record (s.host) { mrqs_done = p.left }))
    ∙ split_done-left (defer_done s.host) n s.host.mrqs_done

parted_finished :
    (s : Service) (n : ℕ)
    → count n (complete_ready s).0.finished
      ≡ (if defer_done s.host n then 0 else count_slots n s.host.mrqs_done)
        + count n s.host.finished
unfolding complete_ready leave_irq
parted_finished s n =
    let p = split_done (defer_done s.host) s.host.mrqs_done in
    count-complete n p.ready (record (s.host) { mrqs_done = p.left })
    ∙ ap (λ (k : ℕ). k + count n s.host.finished)
        (split_done-ready (defer_done s.host) n s.host.mrqs_done)

-- The interrupt handler leaves a request that is done to its thread exactly if a reset is pending, the host wants it
-- so for every request, or the data of the request is mapped for DMA; every other it takes out of its slot and
-- completes, once for each slot that it stood in.
pub complete_ready-Parted : (s : Service) (n : ℕ) → Parted s n (complete_ready s)
complete_ready-Parted s n = elim (Bool-cases (defer_done s.host n)) [
  | inl waits ↦ inl (
    defer_done-Waits s.host n waits,
    (ground (arith, waits, parted_slots s n), ground (arith, waits, parted_finished s n)),
  )
  | inr goes ↦ inr (
    λ w. absurd (ground (arith, goes, Waits-defer_done s.host n w)),
    (ground (arith, goes, parted_slots s n), ground (arith, goes, parted_finished s n)),
  )
]
