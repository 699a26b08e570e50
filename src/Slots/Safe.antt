-- ===== src/Slots/Safe.antt =====
-- The invariant of the request tracker, and the moves of the tracker.
use linux_sdhci_rtt.Base.{
  ℕ, ◌≡◌, refl, sym, ap, ◌∙◌, ◌⊎◌, inl, inr, Bool, true, false, Option, none, some, List, [], ◌∷◌,
  arith, subst, Bool-cases,
}
use linux_sdhci_rtt.Host.{CmdRef, same_ptr}
use linux_sdhci_rtt.Finish.{is_mrq, is_done, take_slot, set_mrq_done, drop_ref, drop_data}
use linux_sdhci_rtt.Done.{free_first}
use linux_sdhci_rtt.Slots.{Slots, refs, of_mrq, claim_slots, release_slots}

-- No request stands in two slots.
abbrev pub Unique : List (Option ℕ) → Type 0
Unique [] = Unit {0}
Unique (none ∷ slots) = Unique slots
Unique (some id ∷ slots) = (is_done id slots ≡ false) × Unique slots

pub record IsSafe (s : Slots) : Type 0 where
  pub quiet : (id : ℕ) → is_done id s.mrqs_done ≡ true → refs id s ≡ false
  pub unique : Unique s.mrqs_done

-- The free slot takes the request, and no other.
is_done-take_slot :
    (id n : ℕ) (l : List (Option ℕ))
    → is_done n (take_slot id l) ≡ true
    → (is_done n l ≡ true) ⊎ (n ≡ id)
unfolding is_done take_slot
is_done-take_slot id n [] e = inl e
is_done-take_slot id n (none ∷ l) e = ground arith
is_done-take_slot id n (some m ∷ l) e = ground (arith, is_done-take_slot id n l)

Unique-take_slot :
    (id : ℕ) (l : List (Option ℕ)) → is_done id l ≡ false → Unique l → Unique (take_slot id l)
unfolding is_done take_slot
Unique-take_slot id [] e u = tt
Unique-take_slot id (none ∷ l) e u = (e, u)
Unique-take_slot id (some m ∷ l) e u = (
  elim (Bool-cases (is_done m (take_slot id l))) [
    | inl there ↦ ground (arith, is_done-take_slot id m l there)
    | inr absent ↦ absent
  ],
  Unique-take_slot id l (ground arith) u.1,
)

Unique-set_mrq_done : (id : ℕ) (l : List (Option ℕ)) → Unique l → Unique (set_mrq_done id l)
unfolding set_mrq_done
Unique-set_mrq_done id l u = elim (Bool-cases (is_done id l)) [
  | inl there ↦ rw there u
  | inr absent ↦ rw absent (Unique-take_slot id l absent u)
]

is_done-set_mrq_done :
    (id n : ℕ) (l : List (Option ℕ))
    → is_done n (set_mrq_done id l) ≡ true
    → (is_done n l ≡ true) ⊎ (n ≡ id)
unfolding set_mrq_done
is_done-set_mrq_done id n l e = elim (Bool-cases (is_done id l)) [
  | inl there ↦ inl (rw there at e)
  | inr absent ↦ is_done-take_slot id n l (rw absent at e)
]

is_done-free_first :
    (n : ℕ) (l : List (Option ℕ)) → is_done n (free_first l) ≡ true → is_done n l ≡ true
unfolding is_done free_first
is_done-free_first n [] e = e
is_done-free_first n (none ∷ l) e = is_done-free_first n l e
is_done-free_first n (some m ∷ l) e = ground arith

Unique-free_first : (l : List (Option ℕ)) → Unique l → Unique (free_first l)
unfolding free_first
Unique-free_first [] u = u
Unique-free_first (none ∷ l) u = Unique-free_first l u
Unique-free_first (some m ∷ l) u = u.1

of_mrq-drop_ref :
    (id n : ℕ) (p : Option CmdRef) → of_mrq n (drop_ref id p) ≡ true → of_mrq n p ≡ true
of_mrq-drop_ref id n none e = e
of_mrq-drop_ref id n (some c) e = ground arith

drop_ref-of_mrq : (id : ℕ) (p : Option CmdRef) → of_mrq id (drop_ref id p) ≡ false
drop_ref-of_mrq id none = refl
drop_ref-of_mrq id (some c) = ground arith

is_mrq-drop_data : (id n : ℕ) (p : Option ℕ) → is_mrq n (drop_data id p) ≡ true → is_mrq n p ≡ true
is_mrq-drop_data id n none e = e
is_mrq-drop_data id n (some c) e = ground arith

drop_data-is_mrq : (id : ℕ) (p : Option ℕ) → is_mrq id (drop_data id p) ≡ false
drop_data-is_mrq id none = refl
drop_data-is_mrq id (some c) = ground arith

-- A release leaves no pointer to its request.
pub release_slots-refs : (id : ℕ) (s : Slots) → refs id (release_slots id s) ≡ false
release_slots-refs id s = ground (
  arith,
  drop_ref-of_mrq id s.cmd,
  drop_ref-of_mrq id s.data_cmd,
  drop_ref-of_mrq id s.deferred_cmd,
  drop_data-is_mrq id s.payload,
)

-- It makes none.
pub refs-release_slots :
    (id n : ℕ) (s : Slots) → refs n (release_slots id s) ≡ true → refs n s ≡ true
refs-release_slots id n s e = ground (
  arith,
  of_mrq-drop_ref id n s.cmd,
  of_mrq-drop_ref id n s.data_cmd,
  of_mrq-drop_ref id n s.deferred_cmd,
  is_mrq-drop_data id n s.payload,
)

refs-release_done :
    (id n : ℕ) (s : Slots)
    → IsSafe s
    → is_done n (set_mrq_done id s.mrqs_done) ≡ true
    → refs n (release_slots id s) ≡ false
refs-release_done id n s safe e = elim (is_done-set_mrq_done id n s.mrqs_done e) [
  | inl there ↦ ground (arith, refs-release_slots id n s, safe.quiet n there)
  | inr same ↦ subst (λ k. refs k (release_slots id s) ≡ false) (sym same) (release_slots-refs id s)
]

pub IsSafe-release : (id : ℕ) (s : Slots) → IsSafe s → IsSafe (release_slots id s)
IsSafe-release id s safe = record {
  quiet = λ n e. refs-release_done id n s safe e;
  unique = Unique-set_mrq_done id s.mrqs_done safe.unique;
}

-- The same requests done, and no pointer that was not there.
pub IsSafe-fewer :
    (s t : Slots)
    → t.mrqs_done ≡ s.mrqs_done
    → ((n : ℕ) → refs n t ≡ true → refs n s ≡ true)
    → IsSafe s
    → IsSafe t
IsSafe-fewer s t same fewer safe = record {
  quiet = λ n e. ground (arith, fewer n, safe.quiet n (ap (is_done n) (sym same) ∙ e));
  unique = subst Unique (sym same) safe.unique;
}

absurd_bool : {A : Type 0} → false ≡ true → A
absurd_bool e = ground arith

IsSafe-more_refs :
    (id n : ℕ) (s t : Slots)
    → t.mrqs_done ≡ s.mrqs_done
    → is_done id s.mrqs_done ≡ false
    → (refs n t ≡ true → (refs n s ≡ true) ⊎ (n ≡ id))
    → IsSafe s
    → is_done n t.mrqs_done ≡ true
    → refs n t ≡ false
IsSafe-more_refs id n s t same undone more safe e = elim (Bool-cases (refs n t)) [
  | inr absent ↦ absent
  | inl there ↦ elim (more there) [
    | inl old ↦ absurd_bool (sym (safe.quiet n (ap (is_done n) (sym same) ∙ e)) ∙ old)
    | inr new ↦ absurd_bool (
        sym (subst (λ k. is_done k s.mrqs_done ≡ false) (sym new) undone)
        ∙ ap (is_done n) (sym same)
        ∙ e)
  ]
]

refs-claim_slots :
    (c : CmdRef) (line has_data : Bool) (n : ℕ) (s : Slots)
    → refs n (claim_slots c line has_data s) ≡ true
    → (refs n s ≡ true) ⊎ (n ≡ c.mrq)
refs-claim_slots c true true n s e = ground arith
refs-claim_slots c true false n s e = ground arith
refs-claim_slots c false true n s e = ground arith
refs-claim_slots c false false n s e = ground arith

refs-defer :
    (c : CmdRef) (n : ℕ) (s : Slots)
    → refs n (record s { deferred_cmd = some c }) ≡ true
    → (refs n s ≡ true) ⊎ (n ≡ c.mrq)
refs-defer c n s e = ground arith

-- New pointers lead to a request that is not done.
pub IsSafe-more :
    (id : ℕ) (s t : Slots)
    → t.mrqs_done ≡ s.mrqs_done
    → is_done id s.mrqs_done ≡ false
    → ((n : ℕ) → refs n t ≡ true → (refs n s ≡ true) ⊎ (n ≡ id))
    → IsSafe s
    → IsSafe t
IsSafe-more id s t same undone more safe = record {
  quiet = λ n e. IsSafe-more_refs id n s t same undone (more n) safe e;
  unique = subst Unique (sym same) safe.unique;
}

pub IsSafe-claim :
    (c : CmdRef) (line has_data : Bool) (s : Slots)
    → is_done c.mrq s.mrqs_done ≡ false
    → IsSafe s
    → IsSafe (claim_slots c line has_data s)
IsSafe-claim c line has_data s undone safe =
    IsSafe-more c.mrq s (claim_slots c line has_data s) refl undone
      (λ n e. refs-claim_slots c line has_data n s e) safe

pub IsSafe-defer :
    (c : CmdRef) (s : Slots)
    → is_done c.mrq s.mrqs_done ≡ false
    → IsSafe s
    → IsSafe (record s { deferred_cmd = some c })
IsSafe-defer c s undone safe =
    IsSafe-more c.mrq s (record s { deferred_cmd = some c }) refl undone (λ n e. refs-defer c n s e)
      safe

pub IsSafe-free : (s : Slots) → IsSafe s → IsSafe (record s { mrqs_done = free_first s.mrqs_done })
IsSafe-free s safe = record {
  quiet = λ n e. safe.quiet n (is_done-free_first n s.mrqs_done e);
  unique = Unique-free_first s.mrqs_done safe.unique;
}

-- A request that a pointer leads to is not done.
pub referenced_undone :
    (id : ℕ) (s : Slots) → IsSafe s → refs id s ≡ true → is_done id s.mrqs_done ≡ false
referenced_undone id s safe e = elim (Bool-cases (is_done id s.mrqs_done)) [
  | inl there ↦ ground (arith, safe.quiet id there)
  | inr absent ↦ absent
]

refs-drop_data :
    (n : ℕ) (s : Slots)
    → refs n (record s { payload = none; data_cmd = none }) ≡ true
    → refs n s ≡ true
refs-drop_data n s e = ground arith

refs-drop_data_cmd :
    (n : ℕ) (s : Slots) → refs n (record s { data_cmd = none }) ≡ true → refs n s ≡ true
refs-drop_data_cmd n s e = ground arith

refs-drop_cmd : (n : ℕ) (s : Slots) → refs n (record s { cmd = none }) ≡ true → refs n s ≡ true
refs-drop_cmd n s e = ground arith

refs-undefer :
    (n : ℕ) (s : Slots) → refs n (record s { deferred_cmd = none }) ≡ true → refs n s ≡ true
refs-undefer n s e = ground arith

pub IsSafe-drop_data :
    (s : Slots) → IsSafe s → IsSafe (record s { payload = none; data_cmd = none })
IsSafe-drop_data s safe = IsSafe-fewer s _ refl (λ n. refs-drop_data n s) safe

pub IsSafe-drop_data_cmd : (s : Slots) → IsSafe s → IsSafe (record s { data_cmd = none })
IsSafe-drop_data_cmd s safe = IsSafe-fewer s _ refl (λ n. refs-drop_data_cmd n s) safe

pub IsSafe-drop_cmd : (s : Slots) → IsSafe s → IsSafe (record s { cmd = none })
IsSafe-drop_cmd s safe = IsSafe-fewer s _ refl (λ n. refs-drop_cmd n s) safe

pub IsSafe-undefer : (s : Slots) → IsSafe s → IsSafe (record s { deferred_cmd = none })
IsSafe-undefer s safe = IsSafe-fewer s _ refl (λ n. refs-undefer n s) safe

refs-payload : (id : ℕ) (s : Slots) → s.payload ≡ some id → refs id s ≡ true
refs-payload id s e = ground arith

refs-cmd : (c : CmdRef) (s : Slots) → s.cmd ≡ some c → refs c.mrq s ≡ true
refs-cmd c s e = ground arith

-- The request of the data in progress, or of a command in progress, is not done.
pub payload-undone :
    (id : ℕ) (s : Slots) → IsSafe s → s.payload ≡ some id → is_done id s.mrqs_done ≡ false
payload-undone id s safe e = referenced_undone id s safe (refs-payload id s e)

pub cmd-undone :
    (c : CmdRef) (s : Slots) → IsSafe s → s.cmd ≡ some c → is_done c.mrq s.mrqs_done ≡ false
cmd-undone c s safe e = referenced_undone c.mrq s safe (refs-cmd c s e)

of_mrq-same_ptr :
    (c : CmdRef) (p : Option CmdRef) → same_ptr (some c) p ≡ true → of_mrq c.mrq p ≡ true
of_mrq-same_ptr c none e = ground arith
of_mrq-same_ptr c (some d) e = ground arith

refs-deferred :
    (c : CmdRef) (s : Slots) → same_ptr (some c) s.deferred_cmd ≡ true → refs c.mrq s ≡ true
refs-deferred c s e = ground (arith, of_mrq-same_ptr c s.deferred_cmd e)

pub deferred-undone :
    (c : CmdRef) (s : Slots)
    → IsSafe s
    → same_ptr (some c) s.deferred_cmd ≡ true
    → is_done c.mrq s.mrqs_done ≡ false
deferred-undone c s safe e = referenced_undone c.mrq s safe (refs-deferred c s e)
