-- ===== src/Done/Laws.antt =====
-- sdhci_complete_work and the loop over sdhci_request_done.
use linux_sdhci_rtt.Base.{
  if_both, ℕ, zero, suc, ◌+◌, ◌≤◌, ◌<◌, ◌≡◌, refl, ap, ◌∙◌, subst, Bool, true, false, Option, none,
  some, List, [], ◌∷◌, ◌==◌, if◌then◌else◌, arith, length,
}
use linux_sdhci_rtt.Host.{Host, has_requests}
use linux_sdhci_rtt.Finish.{needs_reset}
use linux_sdhci_rtt.Done.{
  first_done, free_first, unmap_data, reset_circuits, deliver, request_done_of, request_done,
  complete_all, complete_work,
}
use linux_sdhci_rtt.Slots.Handler.{count_slots, count}

-- The requests that wait in the slots.
abbrev pub waiting : List (Option ℕ) → ℕ
waiting [] = 0
waiting (none ∷ l) = waiting l
waiting (some id ∷ l) = suc (waiting l)

waiting-length : (l : List (Option ℕ)) → waiting l ≤ length l
waiting-length [] = omega arith
waiting-length (none ∷ l) = omega (arith, waiting-length l)
waiting-length (some id ∷ l) = omega (arith, waiting-length l)

-- A round that is not the last has taken one request out of the slots, and completed it.
abbrev pub Round : Host → Host × Bool → Type 0
Round h (g, true) = (g.mrqs_done ≡ h.mrqs_done) × (g.finished ≡ h.finished)
Round h (g, false) =
    (waiting g.mrqs_done + 1 ≡ waiting h.mrqs_done)
    × ((n : ℕ)
        → count_slots n g.mrqs_done + count n g.finished
          ≡ count_slots n h.mrqs_done + count n h.finished)

unmap_data-kept :
    (id : ℕ) (h : Host)
    → ((unmap_data id h).mrqs_done ≡ h.mrqs_done) × ((unmap_data id h).finished ≡ h.finished)
unfolding unmap_data
unmap_data-kept id h = ground arith

reset_circuits-kept :
    (h : Host)
    → ((reset_circuits h).mrqs_done ≡ h.mrqs_done) × ((reset_circuits h).finished ≡ h.finished)
unfolding reset_circuits
reset_circuits-kept h = ground arith

free_first-waiting :
    (id : ℕ) (l : List (Option ℕ)) → first_done l ≡ some id → waiting (free_first l) + 1 ≡ waiting l
unfolding first_done free_first
free_first-waiting id [] e = ground arith
free_first-waiting id (none ∷ l) e = free_first-waiting id l e
free_first-waiting id (some m ∷ l) e = omega arith

abbrev or_zero : Option ℕ → ℕ
or_zero none = 0
or_zero (some n) = n

free_first-count :
    (id n : ℕ) (l : List (Option ℕ))
    → first_done l ≡ some id
    → count_slots n (free_first l) + (if id == n then 1 else 0) ≡ count_slots n l
unfolding first_done free_first
free_first-count id n [] e = ground arith
free_first-count id n (none ∷ l) e = free_first-count id n l e
free_first-count id n (some m ∷ l) e =
    subst
      (λ k.
        count_slots n l + (if k == n then 1 else 0) ≡ (if m == n then 1 else 0) + count_slots n l)
      (ap (λ p. or_zero p) e) (omega arith)

deliver-Round :
    (id : ℕ) (g h : Host)
    → first_done h.mrqs_done ≡ some id
    → g.mrqs_done ≡ h.mrqs_done
    → g.finished ≡ h.finished
    → Round h (deliver id g, false)
unfolding deliver
deliver-Round id g h e same fin = (
  ap (λ l. waiting (free_first l) + 1) same ∙ free_first-waiting id h.mrqs_done e,
  λ n. omega (
    arith,
    free_first-count id n h.mrqs_done e,
    ap (λ l. count_slots n (free_first l)) same,
    ap (count n) fin,
  ),
)

request_done_of-Round :
    (id : ℕ) (h : Host) → first_done h.mrqs_done ≡ some id → Round h (request_done_of id h)
unfolding request_done_of
request_done_of-Round id h e =
    let h1 = unmap_data id h in
    let kept = unmap_data-kept id h in
    let reset = reset_circuits-kept h1 in
    if_both (Round h) (needs_reset h1 (h1.store id))
      (if_both (Round h) (has_requests h1) kept
        (deliver-Round id (reset_circuits h1) h e (reset.0 ∙ kept.0) (reset.1 ∙ kept.1)))
      (deliver-Round id h1 h e kept.0 kept.1)

request_done_at :
    (p : Option ℕ) (h : Host)
    → first_done h.mrqs_done ≡ p
    → Round h (elim p as (λ x. Host × Bool) [ none ↦ (h, true) | some id ↦ request_done_of id h ])
request_done_at none h e = (refl, refl)
request_done_at (some id) h e = request_done_of-Round id h e

request_done-Round : (h : Host) → Round h (request_done h)
unfolding request_done
request_done-Round h = request_done_at (first_done h.mrqs_done) h refl

abbrev after_round : ℕ → Host × Bool → Host
after_round fuel (g, idle) = elim idle [ true ↦ g | false ↦ complete_all fuel g ]

more_fuel :
    (fuel : ℕ) (h : Host) (p : Host × Bool)
    → Round h p
    → waiting h.mrqs_done < suc fuel
    → ((g : Host) → waiting g.mrqs_done < fuel → complete_all (suc fuel) g ≡ complete_all fuel g)
    → after_round (suc fuel) p ≡ after_round fuel p
more_fuel fuel h (g, true) round enough ih = refl
more_fuel fuel h (g, false) round enough ih = ih g (omega (arith, round.0))

complete_all-more :
    (fuel : ℕ) (h : Host)
    → waiting h.mrqs_done < fuel
    → complete_all (suc fuel) h ≡ complete_all fuel h
unfolding complete_all
complete_all-more zero h enough = absurd (omega arith)
complete_all-more (suc fuel) h enough =
    more_fuel fuel h (request_done h) (request_done-Round h) enough (complete_all-more fuel)

zero_more : (n : ℕ) → 0 + n ≡ n
zero_more n = omega arith

one_more : (k n : ℕ) → suc k + n ≡ suc (k + n)
one_more k n = omega arith

enough_from : (k : ℕ) (h : Host) → complete_all (k + suc (length h.mrqs_done)) h ≡ complete_work h
unfolding complete_work
enough_from zero h = ap (λ (f : ℕ). complete_all f h) (zero_more (suc (length h.mrqs_done)))
enough_from (suc k) h =
    ap (λ (f : ℕ). complete_all f h) (one_more k (suc (length h.mrqs_done)))
    ∙ complete_all-more (k + suc (length h.mrqs_done)) h (omega (arith, waiting-length h.mrqs_done))
    ∙ enough_from k h

-- The host after the loop has as many of each request, in the slots and completed together.
abbrev Conserves : Host → Host → Type 0
Conserves h g =
    (n : ℕ)
    → count_slots n g.mrqs_done + count n g.finished
      ≡ count_slots n h.mrqs_done + count n h.finished

after_round-Conserves :
    (fuel : ℕ) (h : Host) (p : Host × Bool)
    → Round h p
    → ((g : Host) → Conserves g (complete_all fuel g))
    → Conserves h (after_round fuel p)
after_round-Conserves fuel h (g, true) round ih n =
    omega (arith, ap (count_slots n) round.0, ap (count n) round.1)
after_round-Conserves fuel h (g, false) round ih n = omega (arith, ih g n, round.1 n)

complete_all-Conserves : (fuel : ℕ) (h : Host) → Conserves h (complete_all fuel h)
unfolding complete_all
complete_all-Conserves zero h n = refl
complete_all-Conserves (suc fuel) h n =
    after_round-Conserves fuel h (request_done h) (request_done-Round h)
      (complete_all-Conserves fuel) n

complete_work-Conserves : (h : Host) → Conserves h (complete_work h)
unfolding complete_work
complete_work-Conserves h = complete_all-Conserves (suc (length h.mrqs_done)) h

-- The loop of sdhci_complete_work ends within a round for each slot and one more: any number of
-- further rounds gives the same host. Each request stands as often in the slots and among the
-- completed ones together as before.
pub complete_work-ends :
    (h : Host)
    → ((k : ℕ) → complete_all (k + suc (length h.mrqs_done)) h ≡ complete_work h)
      × ((n : ℕ)
          → count_slots n (complete_work h).mrqs_done + count n (complete_work h).finished
            ≡ count_slots n h.mrqs_done + count n h.finished)
complete_work-ends h = (λ k. enough_from k h, complete_work-Conserves h)
