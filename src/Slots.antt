-- ===== src/Slots.antt =====
-- The request tracker inside `struct sdhci_host`: the pointers to the commands and the data in
-- progress, and the requests that are done. `claim_slots` and `release_slots` are what sending a
-- command and finishing a request do to it, with all else of the driver forgotten.
pub mod Safe
pub mod Refine
pub mod Finish
pub mod Irq
pub mod Done
pub mod Handler
pub mod Deferred
pub mod Retry
pub mod Reachable
use linux_sdhci_rtt.Base.{
  ℕ, Bool, true, false, ◌||◌, Option, none, some, List, [], ◌∷◌, ◌==◌, ◌≡◌, if◌then◌else◌,
}
use linux_sdhci_rtt.Host.{Host, CmdRef, Role}
use linux_sdhci_rtt.Finish.{is_mrq, is_done, set_mrq_done, drop_ref, drop_data}

pub record Slots : Type 0 where
  pub cmd : Option CmdRef
  pub data_cmd : Option CmdRef
  pub deferred_cmd : Option CmdRef
  pub payload : Option ℕ
  pub mrqs_done : List (Option ℕ)

abbrev pub slots : Host → Slots
slots h = record {
  cmd = h.cmd;
  data_cmd = h.data_cmd;
  deferred_cmd = h.deferred_cmd;
  payload = h.payload;
  mrqs_done = h.mrqs_done;
}

abbrev pub of_mrq : ℕ → Option CmdRef → Bool
of_mrq id none = false
of_mrq id (some c) = c.mrq == id

-- Does a pointer lead to the request?
abbrev pub refs : ℕ → Slots → Bool
refs id s =
    of_mrq id s.cmd || of_mrq id s.data_cmd || of_mrq id s.deferred_cmd || is_mrq id s.payload

abbrev pub claim_slots : CmdRef → Bool → Bool → Slots → Slots
claim_slots c line has_data s = record s {
  cmd = some c;
  data_cmd = if line then some c else s.data_cmd;
  payload = if has_data then some c.mrq else s.payload;
}

abbrev pub release_slots : ℕ → Slots → Slots
release_slots id s = record {
  cmd = drop_ref id s.cmd;
  data_cmd = drop_ref id s.data_cmd;
  deferred_cmd = drop_ref id s.deferred_cmd;
  payload = drop_data id s.payload;
  mrqs_done = set_mrq_done id s.mrqs_done;
}
