-- ===== src/Finish/Laws.antt =====
-- __sdhci_finish_mrq and sdhci_set_mrq_done.
use linux_sdhci_rtt.Base.{
  ℕ, ◌≡◌, ap, ◌∙◌, Bool, true, false, Option, none, some, List, [], ◌∷◌, arith,
}
use linux_sdhci_rtt.Host.{Host}
use linux_sdhci_rtt.Finish.{is_done, take_slot, set_mrq_done, release_mrq}
use linux_sdhci_rtt.Slots.{slots, refs}
use linux_sdhci_rtt.Slots.Safe.{release_slots-refs}
use linux_sdhci_rtt.Slots.Refine.{slots-release_mrq}

-- A slot that holds no request.
abbrev pub has_free : List (Option ℕ) → Bool
has_free [] = false
has_free (none ∷ l) = true
has_free (some n ∷ l) = has_free l

take_slot-is_done :
    (id : ℕ) (l : List (Option ℕ)) → has_free l ≡ true → is_done id (take_slot id l) ≡ true
unfolding is_done take_slot
take_slot-is_done id [] e = ground arith
take_slot-is_done id (none ∷ l) e = ground arith
take_slot-is_done id (some n ∷ l) e = ground (arith, take_slot-is_done id l e)

set_mrq_done-is_done :
    (id : ℕ) (l : List (Option ℕ)) → has_free l ≡ true → is_done id (set_mrq_done id l) ≡ true
unfolding set_mrq_done
set_mrq_done-is_done id l e = ground (arith, take_slot-is_done id l e)

take_slot-keeps :
    (id n : ℕ) (l : List (Option ℕ)) → is_done n l ≡ true → is_done n (take_slot id l) ≡ true
unfolding is_done take_slot
take_slot-keeps id n [] e = e
take_slot-keeps id n (none ∷ l) e = ground (arith, e)
take_slot-keeps id n (some m ∷ l) e = ground (arith, take_slot-keeps id n l)

set_mrq_done-keeps :
    (id n : ℕ) (l : List (Option ℕ)) → is_done n l ≡ true → is_done n (set_mrq_done id l) ≡ true
unfolding set_mrq_done
set_mrq_done-keeps id n l e = ground (arith, take_slot-keeps id n l e)

-- While a slot is free, finishing a request leaves it done, with no pointer of the host to it, and
-- the other requests that were done stay done.
pub release_mrq-done :
    (id : ℕ) (h : Host)
    → has_free h.mrqs_done ≡ true
    → (is_done id (release_mrq id h).mrqs_done ≡ true)
      × (refs id (slots (release_mrq id h)) ≡ false)
      × ((n : ℕ) → is_done n h.mrqs_done ≡ true → is_done n (release_mrq id h).mrqs_done ≡ true)
release_mrq-done id h free =
    let same = slots-release_mrq id h in
    (
      ap (λ s. is_done id s.mrqs_done) same ∙ set_mrq_done-is_done id h.mrqs_done free,
      ap (refs id) same ∙ release_slots-refs id (slots h),
      λ n e. ap (λ s. is_done n s.mrqs_done) same ∙ set_mrq_done-keeps id n h.mrqs_done e,
    )
