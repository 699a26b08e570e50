-- ===== src/Slots/Refine.antt =====
-- sdhci.c: sdhci_send_command and __sdhci_finish_mrq as operations of the request tracker.
use linux_sdhci_rtt.Base.{
  ℕ, ◌≡◌, refl, ◌∙◌, ap, Bool, true, false, Option, none, some, is_some, if◌then◌else◌, arith, inl,
  inr, Bool-cases,
}
use linux_sdhci_rtt.Mmc.{Data}
use linux_sdhci_rtt.Dma.{dma_flags, config_dma}
use linux_sdhci_rtt.Host.{data_of, Host, CmdRef, on_dev, cmd_data, data_line_cmd}
use linux_sdhci_rtt.Send.{
  map_dma, start_dma, prepare_data, initialize_data, prepare, claim, program, restarted, tried,
  is_busy, issue, mod_timer, write_command, send_command, start_pio, set_flags, expiry,
}
use linux_sdhci_rtt.Finish.{release_mrq, del_timer, recover}
use linux_sdhci_rtt.Slots.{Slots, slots, claim_slots, release_slots}

map_dma-slots : (id : ℕ) (p : Data × Option ℕ) (h : Host) → slots (map_dma id p h) ≡ slots h
unfolding map_dma
map_dma-slots id (x, none) h = refl
map_dma-slots id (x, some n) h = refl

start_dma-slots : (id : ℕ) (x : Data) (h : Host) → slots (start_dma id x h) ≡ slots h
unfolding start_dma
start_dma-slots id x h = ground (arith, map_dma-slots id)

start_pio-slots : (x : Data) (h : Host) → slots (start_pio x h) ≡ slots h
start_pio-slots x h = ground arith

abbrev started : ℕ → Data → Host → Host
started id x h =
    let h1 = initialize_data id x h in set_flags (dma_flags h1.dev.flags h1.dev.quirks x.sg) h1

prepare_data-slots :
    (id : ℕ) (x : Data) (h : Host)
    → slots (prepare_data id x h) ≡ record (slots h) { payload = some id }
unfolding prepare_data initialize_data
prepare_data-slots id x h =
    start_pio-slots x (on_dev config_dma (start_dma id x (started id x h)))
    ∙ start_dma-slots id x (started id x h)

mod_timer-slots : (id t : ℕ) (h : Host) → slots (mod_timer id t h) ≡ slots h
unfolding mod_timer
mod_timer-slots id t h = ground arith

del_timer-slots : (id : ℕ) (h : Host) → slots (del_timer id h) ≡ slots h
unfolding del_timer
del_timer-slots id h = ground arith

pub recover-slots : (dc : Option CmdRef) (e : Bool) (h : Host) → slots (recover dc e h) ≡ slots h
unfolding recover
recover-slots dc e h = ground arith

pub slots-release_mrq : (id : ℕ) (h : Host) → slots (release_mrq id h) ≡ release_slots id (slots h)
unfolding release_mrq
slots-release_mrq id h = ground (arith, del_timer-slots id)

prepare-slots :
    (c : CmdRef) (d : Option Data) (h : Host)
    → slots (prepare c d h)
      ≡ record (slots h) { payload = if is_some d then some c.mrq else h.payload }
unfolding prepare
prepare-slots c none h = refl
prepare-slots c (some x) h = prepare_data-slots c.mrq x h

claim-slots :
    (c : CmdRef) (h : Host)
    → slots (claim c h) ≡ record (slots h) {
      cmd = some c;
      data_cmd = if data_line_cmd h c then some c else h.data_cmd;
    }
unfolding claim data_line_cmd
claim-slots c h = ground arith

pub claim-store : (c : CmdRef) (h : Host) → (claim c h).store ≡ h.store
unfolding claim data_line_cmd
claim-store c h = ground arith

abbrev set_payload : CmdRef → Bool → Slots → Slots
set_payload c b s = record s { payload = if b then some c.mrq else s.payload }

program-slots :
    (c : CmdRef) (h : Host)
    → slots (program c h) ≡ claim_slots c (data_line_cmd h c) (is_some (cmd_data h c)) (slots h)
unfolding program
program-slots c h =
    prepare-slots c (cmd_data (claim c h) c) (claim c h)
    ∙ ap (λ store. set_payload c (is_some (data_of (store c.mrq) c.role)) (slots (claim c h)))
        (claim-store c h)
    ∙ ap (set_payload c (is_some (cmd_data h c))) (claim-slots c h)

write_command-slots : (c : CmdRef) (h : Host) → slots (write_command c h) ≡ slots h
unfolding write_command
write_command-slots c h = refl

issue-slots :
    (c : CmdRef) (h : Host)
    → slots (issue c h) ≡ claim_slots c (data_line_cmd h c) (is_some (cmd_data h c)) (slots h)
unfolding issue
issue-slots c h =
    write_command-slots c (mod_timer c.mrq (expiry (program c h) c) (program c h))
    ∙ mod_timer-slots c.mrq (expiry (program c h) c) (program c h)
    ∙ program-slots c h

pub send_command-busy :
    (h : Host) (c : CmdRef) → is_busy h c ≡ true → send_command h c ≡ (tried h c, false)
unfolding send_command
send_command-busy h c e = ap (λ b. if b then (tried h c, false) else (issue c (tried h c), true)) e

pub send_command-free :
    (h : Host) (c : CmdRef) → is_busy h c ≡ false → send_command h c ≡ (issue c (tried h c), true)
unfolding send_command
send_command-free h c e = ap (λ b. if b then (tried h c, false) else (issue c (tried h c), true)) e

tried-slots : (h : Host) (c : CmdRef) → slots (tried h c) ≡ slots h
unfolding tried restarted
tried-slots h c = refl

-- Sending a command leaves the tracker alone when the controller is busy, and claims the slots of
-- the command otherwise.
pub send_command-slots :
    (h : Host) (c : CmdRef)
    → slots (send_command h c).0 ≡ (
        if (send_command h c).1
        then claim_slots c
            (data_line_cmd (tried h c) c)
            (is_some (cmd_data (tried h c) c))
            (slots h)
        else slots h)
send_command-slots h c = elim (Bool-cases (is_busy h c)) [
  | inl busy ↦ rw (send_command-busy h c busy) (tried-slots h c)
  | inr free ↦ rw (send_command-free h c free) (
      issue-slots c (tried h c)
      ∙ ap (claim_slots c (data_line_cmd (tried h c) c) (is_some (cmd_data (tried h c) c)))
          (tried-slots h c))
]
