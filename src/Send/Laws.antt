-- ===== src/Send/Laws.antt =====
-- What sdhci_send_command does when the controller is busy, and when it is not.
use linux_sdhci_rtt.Base.{
  if_both, ℕ, ◌≡◌, ◌<◌, refl, ap, ◌∙◌, sym, subst, true, false, Option, none, some, List, [], ◌∷◌,
  ◌==◌, if◌then◌else◌, is_some, arith, has, Bool-cases, inl, inr,
}
use linux_sdhci_rtt.Regs.{quirk2_stop_with_tc, req_use_dma, command as command_reg}
use linux_sdhci_rtt.Device.{Write, readl, writew}
use linux_sdhci_rtt.Mmc.{Command, Data, Request, Cookie}
use linux_sdhci_rtt.Command.{drop_busy, get_cmd, cmd_flags}
use linux_sdhci_rtt.Command.Laws.{get_cmd-make_cmd}
use linux_sdhci_rtt.Dma.{dma_flags, config_dma, pre_dma_transfer}
use linux_sdhci_rtt.Host.{
  Host, CmdRef, Role, command, command_of, cmd_data, data_line_cmd, on_data, on_command, on_some,
  on_stop, stop_of, or_none, on_dev, update_cmd, update,
}
use linux_sdhci_rtt.Send.{
  send_command, restarted, tried, is_busy, issue, program, mod_timer, write_command, expiry,
  map_dma, start_dma, prepare_data, initialize_data, prepare, claim, restart_data, fresh_command,
  start_pio, set_flags,
}
use linux_sdhci_rtt.Slots.{slots, claim_slots}
use linux_sdhci_rtt.Slots.Refine.{
  send_command-busy, send_command-free, claim-store, send_command-slots,
}

tried-log : (h : Host) (c : CmdRef) → (tried h c).dev.log ≡ h.dev.log
unfolding tried restarted readl
tried-log h c = refl

-- A command that is refused has written no register.
refused-log :
    (h : Host) (c : CmdRef)
    → (send_command h c).1 ≡ false
    → (send_command h c).0.dev.log ≡ h.dev.log
refused-log h c e = elim (Bool-cases (is_busy h c)) [
  | inl busy ↦ ap (λ p. p.0.dev.log) (send_command-busy h c busy) ∙ tried-log h c
  | inr free ↦ ground (arith, e, ap (λ p. p.1) (send_command-free h c free))
]

-- A store to the data of a request leaves its commands alone.
stop_of-on_data :
    (f : Data → Data) (keeps : (x : Data) → (f x).stop ≡ x.stop) (p : Option Data)
    → or_none (stop_of (on_some f p)) ≡ or_none (stop_of p)
stop_of-on_data f keeps none = refl
stop_of-on_data f keeps (some x) = ap or_none (keeps x)

command_of-on_data :
    (f : Data → Data) (keeps : (x : Data) → (f x).stop ≡ x.stop) (r : Request) (role : Role)
    → command_of (on_data f r) role ≡ command_of r role
command_of-on_data f keeps r Role.sbc = refl
command_of-on_data f keeps r Role.main = refl
command_of-on_data f keeps r Role.stop = stop_of-on_data f keeps r.payload

opcode-on_some :
    (f : Command → Command) (keeps : (k : Command) → (f k).opcode ≡ k.opcode) (p : Option Command)
    → (or_none (on_some f p)).opcode ≡ (or_none p).opcode
opcode-on_some f keeps none = refl
opcode-on_some f keeps (some k) = keeps k

opcode-on_stop :
    (f : Command → Command) (keeps : (k : Command) → (f k).opcode ≡ k.opcode) (p : Option Data)
    → (or_none (stop_of (on_some (on_stop f) p))).opcode ≡ (or_none (stop_of p)).opcode
opcode-on_stop f keeps none = refl
opcode-on_stop f keeps (some x) = opcode-on_some f keeps x.stop

opcode-on_command :
    (f : Command → Command) (keeps : (k : Command) → (f k).opcode ≡ k.opcode) (r : Request)
    (role : Role)
    → (command_of (on_command role f r) role).opcode ≡ (command_of r role).opcode
opcode-on_command f keeps r Role.sbc = opcode-on_some f keeps r.sbc
opcode-on_command f keeps r Role.main = keeps r.cmd
opcode-on_command f keeps r Role.stop = opcode-on_stop f keeps r.payload

pub update-same :
    (id : ℕ) (f : Request → Request) (store : ℕ → Request) → update id f store id ≡ f (store id)
update-same id f store = ap (λ b. if b then f (store id) else store id) (same id)
  where
    same : (n : ℕ) → (n == n) ≡ true
    same n = ground arith

opcode-update_cmd :
    (c : CmdRef) (f : Command → Command) (keeps : (k : Command) → (f k).opcode ≡ k.opcode)
    (h : Host)
    → (command (update_cmd c f h) c).opcode ≡ (command h c).opcode
opcode-update_cmd c f keeps h =
    ap (λ r. (command_of r c.role).opcode) (update-same c.mrq (on_command c.role f) h.store)
    ∙ opcode-on_command f keeps (h.store c.mrq) c.role

command-update_data :
    (c : CmdRef) (f : Data → Data) (keeps : (x : Data) → (f x).stop ≡ x.stop) (store : ℕ → Request)
    → command_of (update c.mrq (on_data f) store c.mrq) c.role ≡ command_of (store c.mrq) c.role
command-update_data c f keeps store =
    ap (λ r. command_of r c.role) (update-same c.mrq (on_data f) store)
    ∙ command_of-on_data f keeps (store c.mrq) c.role

map_dma-command :
    (c : CmdRef) (p : Data × Option ℕ) (h : Host) → command (map_dma c.mrq p h) c ≡ command h c
unfolding map_dma
map_dma-command c (x, none) h = refl
map_dma-command c (x, some n) h =
    command-update_data c (λ y. record y { sg_count = x.sg_count; host_cookie = x.host_cookie })
      (λ y. refl) h.store

start_dma-command :
    (c : CmdRef) (x : Data) (h : Host) → command (start_dma c.mrq x h) c ≡ command h c
unfolding start_dma
start_dma-command c x h =
    if_both (λ (g : Host). command g c ≡ command h c) (has h.dev.flags req_use_dma)
      (map_dma-command c (pre_dma_transfer h.bounce_buffer x Cookie.mapped) h) refl

start_pio-command : (c : CmdRef) (x : Data) (h : Host) → command (start_pio x h) c ≡ command h c
start_pio-command c x h =
    if_both (λ (g : Host). command g c ≡ command h c) (has h.dev.flags req_use_dma) refl refl

initialize_data-command :
    (c : CmdRef) (x : Data) (h : Host) → command (initialize_data c.mrq x h) c ≡ command h c
unfolding initialize_data
initialize_data-command c x h = command-update_data c restart_data (λ y. refl) h.store

prepare_data-command :
    (c : CmdRef) (x : Data) (h : Host) → command (prepare_data c.mrq x h) c ≡ command h c
unfolding prepare_data
prepare_data-command c x h =
    let h1 = initialize_data c.mrq x h in
    let h2 = set_flags (dma_flags h1.dev.flags h1.dev.quirks x.sg) h1 in
    let h3 = on_dev config_dma (start_dma c.mrq x h2) in
    start_pio-command c x h3 ∙ start_dma-command c x h2 ∙ initialize_data-command c x h

prepare-command :
    (c : CmdRef) (d : Option Data) (h : Host) → command (prepare c d h) c ≡ command h c
unfolding prepare
prepare-command c none h = refl
prepare-command c (some x) h = prepare_data-command c x h

program-opcode : (c : CmdRef) (h : Host) → (command (program c h) c).opcode ≡ (command h c).opcode
unfolding program
program-opcode c h =
    let h1 = claim c h in
    let h2 = prepare c (cmd_data h1 c) h1 in
    opcode-update_cmd c (λ x. record x { flags = drop_busy x.flags }) (λ k. refl) h2
    ∙ ap (λ k. k.opcode) (prepare-command c (cmd_data h1 c) h1)
    ∙ ap (λ store. (command_of (store c.mrq) c.role).opcode) (claim-store c h)

mod_timer-store : (id t : ℕ) (h : Host) → (mod_timer id t h).store ≡ h.store
unfolding mod_timer
mod_timer-store id t h = ground arith

-- The opcode that the newest register write gives to the controller, when it starts a command.
abbrev pub started : List Write → Option ℕ
started [] = none
started (w ∷ ws) = if w.reg == command_reg then some (get_cmd w.val) else none

issue-started :
    (c : CmdRef) (h : Host)
    → (command h c).opcode < 64
    → started (issue c h).dev.log ≡ some (command h c).opcode
unfolding issue write_command writew
issue-started c h small =
    let g = mod_timer c.mrq (expiry (program c h) c) (program c h) in
    let same : (command g c).opcode ≡ (command h c).opcode =
      ap (λ store. (command_of (store c.mrq) c.role).opcode)
        (mod_timer-store c.mrq (expiry (program c h) c) (program c h))
      ∙ program-opcode c h in
    ap some (
      get_cmd-make_cmd (command g c).opcode
        (cmd_flags g.opcodes (command g c).flags (command g c).opcode (is_some (cmd_data g c)))
        (subst (λ o. o < 64) (sym same) small)
      ∙ same)

tried-opcode : (h : Host) (c : CmdRef) → (command (tried h c) c).opcode ≡ (command h c).opcode
unfolding tried restarted fresh_command
tried-opcode h c =
    opcode-update_cmd c
      (fresh_command (has h.dev.quirks2 quirk2_stop_with_tc) h.opcodes.stop_transmission)
      (λ k. refl) h

sent_as_issue :
    (h : Host) (c : CmdRef)
    → (send_command h c).1 ≡ true
    → (send_command h c).0 ≡ issue c (tried h c)
sent_as_issue h c e = elim (Bool-cases (is_busy h c)) [
  | inl busy ↦ absurd_bool (sym (ap (λ p. p.1) (send_command-busy h c busy)) ∙ e)
  | inr free ↦ ap (λ p. p.0) (send_command-free h c free)
]
  where
    absurd_bool : {A : Type 0} → false ≡ true → A
    absurd_bool f = ground arith

-- A command that sdhci_send_command takes, with an opcode of 6 bits, is the command in progress
-- afterwards, and the newest register write starts its opcode.
pub send_command-started :
    (h : Host) (c : CmdRef)
    → (command h c).opcode < 64
    → (send_command h c).1 ≡ true
    → (started (send_command h c).0.dev.log ≡ some (command h c).opcode)
      × ((send_command h c).0.cmd ≡ some c)
send_command-started h c small e = (
  ap (λ (g : Host). started g.dev.log) (sent_as_issue h c e)
      ∙ issue-started c (tried h c) (subst (λ o. o < 64) (sym (tried-opcode h c)) small)
      ∙ ap some (tried-opcode h c),
  ap (λ s. s.cmd) (send_command-slots h c)
      ∙ ap
          (λ b.
            (if b
              then claim_slots c (data_line_cmd (tried h c) c) (is_some (cmd_data (tried h c) c))
                  (slots h)
              else slots h).cmd)
          e,
)

-- A command that sdhci_send_command refuses has written no register and changed no pointer of the
-- host, and no request is done by it.
pub send_command-refused :
    (h : Host) (c : CmdRef)
    → (send_command h c).1 ≡ false
    → ((send_command h c).0.dev.log ≡ h.dev.log) × (slots (send_command h c).0 ≡ slots h)
send_command-refused h c e = (
  refused-log h c e,
  send_command-slots h c
      ∙ ap
          (λ b.
            if b
            then claim_slots c (data_line_cmd (tried h c) c) (is_some (cmd_data (tried h c) c))
                (slots h)
            else slots h)
          e,
)
