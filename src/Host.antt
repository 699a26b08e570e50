-- ===== src/Host.antt =====
-- sdhci.h: `struct sdhci_host`, its slots for commands and requests, and the requests in memory.
-- A request is a number, which `store` looks up; a command is the request that it belongs to and its
-- part there, so that two pointers are equal when these are.
use linux_sdhci_rtt.Base.{
  ℕ, Bool, true, false, ◌&&◌, ◌||◌, Option, none, some, List, ◌==◌, is_some, if◌then◌else◌, has,
}
use linux_sdhci_rtt.Device.{Device, M}
use linux_sdhci_rtt.Mmc.{Command, Data, Request, Opcodes, Errno, mmc_rsp_busy}

-- The part of its request that a command is: `mrq->sbc`, `mrq->cmd` or `mrq->data->stop`.
pub data Role : Type 0 where
  sbc main stop : Role

abbrev pub same_role : Role → Role → Bool
same_role Role.sbc Role.sbc = true
same_role Role.main Role.main = true
same_role Role.stop Role.stop = true
same_role _ _ = false

pub record CmdRef : Type 0 where
  pub mrq : ℕ
  pub role : Role

-- `mrq->cmd`.
abbrev pub main_of : ℕ → CmdRef
main_of id = record { mrq = id; role = Role.main }

abbrev pub same_ref : CmdRef → CmdRef → Bool
same_ref a b = a.mrq == b.mrq && same_role a.role b.role

-- Two pointers, which may both be null.
abbrev pub same_ptr : Option CmdRef → Option CmdRef → Bool
same_ptr none none = true
same_ptr (some a) (some b) = same_ref a b
same_ptr _ _ = false

pub record Host : Type 0 where
  pub dev : Device
  pub opcodes : Opcodes
  pub store : ℕ → Request
  pub cmd : Option CmdRef
  pub data_cmd : Option CmdRef
  pub deferred_cmd : Option CmdRef
  pub payload : Option ℕ
  pub mrqs_done : List (Option ℕ)
  pub pending_reset : Bool
  pub data_early : Bool
  pub always_defer_done : Bool
  pub blocks : ℕ
  pub bounce_buffer : Option ℕ
  pub adma_addr : ℕ
  pub bounce_addr : ℕ
  pub max_blk_size : ℕ
  pub timer : Option ℕ
  pub data_timer : Option ℕ
  pub complete_work : Bool
  pub tuning_done : Bool
  pub thread_isr : ℕ
  pub runtime_suspended : Bool
  pub finished : List ℕ
  pub bug : Bool

-- A call that touches the registers only.
abbrev pub on_dev : M (Unit {0}) → Host → Host
on_dev m h = record h { dev = (m h.dev).1 }

-- A store to one request.
abbrev pub update : ℕ → (Request → Request) → (ℕ → Request) → ℕ → Request
update id f store n = if n == id then f (store n) else store n

abbrev pub update_mrq : ℕ → (Request → Request) → Host → Host
update_mrq id f h = record h { store = update id f h.store }

-- The command that is not there: a null pointer, which the code does not follow.
abbrev pub no_command : Command
no_command = record {
  opcode = 0;
  arg = 0;
  flags = 0;
  busy_timeout = 0;
  error = none;
  resp = record { w0 = 0; w1 = 0; w2 = 0; w3 = 0 };
}

abbrev pub or_none : Option Command → Command
or_none none = no_command
or_none (some c) = c

abbrev pub stop_of : Option Data → Option Command
stop_of none = none
stop_of (some x) = x.stop

abbrev pub command_of : Request → Role → Command
command_of r Role.sbc = or_none r.sbc
command_of r Role.main = r.cmd
command_of r Role.stop = or_none (stop_of r.payload)

abbrev pub on_some : {A : Type 0} → (A → A) → Option A → Option A
on_some f none = none
on_some f (some a) = some (f a)

abbrev pub on_stop : (Command → Command) → Data → Data
on_stop f x = record x { stop = on_some f x.stop }

-- A store to one command of a request.
abbrev pub on_command : Role → (Command → Command) → Request → Request
on_command Role.sbc f r = record r { sbc = on_some f r.sbc }
on_command Role.main f r = record r { cmd = f r.cmd }
on_command Role.stop f r = record r { payload = on_some (on_stop f) r.payload }

abbrev pub on_data : (Data → Data) → Request → Request
on_data f r = record r { payload = on_some f r.payload }

-- `cmd->data`: the data belongs to the main command.
abbrev pub data_of : Request → Role → Option Data
data_of r Role.main = r.payload
data_of r _ = none

abbrev pub command : Host → CmdRef → Command
command h c = command_of (h.store c.mrq) c.role

abbrev pub cmd_data : Host → CmdRef → Option Data
cmd_data h c = data_of (h.store c.mrq) c.role

abbrev pub update_cmd : CmdRef → (Command → Command) → Host → Host
update_cmd c f = update_mrq c.mrq (on_command c.role f)

abbrev pub set_error : Option Errno → Command → Command
set_error e c = record c { error = e }

abbrev pub set_data_error : Option Errno → Data → Data
set_data_error e x = record x { error = e }

-- sdhci_data_line_cmd.
unfoldable pub data_line_cmd : Host → CmdRef → Bool
data_line_cmd h c = is_some (cmd_data h c) || has (command h c).flags mmc_rsp_busy

-- sdhci_has_requests.
unfoldable pub has_requests : Host → Bool
has_requests h = is_some h.cmd || is_some h.data_cmd
