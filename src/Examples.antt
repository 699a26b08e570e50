-- ===== src/Examples.antt =====
-- Concrete controllers, hosts and scatter lists for the examples.
pub mod Registers
pub mod Tables
pub mod Requests
pub mod Platform
pub mod Transfers
pub mod Modes
pub mod Sleep
use linux_sdhci_rtt.Base.{
  ℕ, zero, suc, ◌+◌, ◌*◌, Bool, true, false, Option, none, some, List, [], ◌∷◌, ◌==◌, if◌then◌else◌,
}
use linux_sdhci_rtt.Device.{Device, Timing}
use linux_sdhci_rtt.Mmc.{Command, Data, Request, Cookie, SgEntry, Opcodes, mmc_rsp_present}
use linux_sdhci_rtt.Host.{main_of, Host, CmdRef, Role}

-- A controller that answers 0 to every read, with a clock that advances a tick at each access.
abbrev pub device : Device
device = record {
  hw = λ n reg. 0;
  jiffies = λ n. n;
  hz = 1000;
  rounds = 200;
  removable = true;
  accesses = 0;
  log = [];
  quirks = 0;
  quirks2 = 0;
  version = 2;
  v4_mode = false;
  flags = 0;
  max_clk = 200000000;
  timeout_clk = 1000;
  clk_mul = 0;
  clock = 0;
  actual_clock = 0;
  timing = Timing.legacy;
  pwr = 0;
  bus_on = false;
  preset_enabled = false;
  ier = 0;
  data_timeout = 0;
  bus_width = 0;
  tuning_mode = 0;
  sdma_boundary = 7;
  cqe_on = false;
  max_busy_timeout = 0;
}

abbrev pub opcodes : Opcodes
opcodes = record {
  stop_transmission = 12;
  send_tuning_block = 19;
  send_tuning_block_hs200 = 21;
  write_multiple_block = 25;
  read_multiple_block = 18;
  sd_io_rw_extended = 53;
}

-- A read of the card's status: CMD13, without data.
abbrev pub status_command : Command
status_command = record {
  opcode = 13;
  arg = 0x10000;
  flags = mmc_rsp_present;
  busy_timeout = 0;
  error = none;
  resp = record { w0 = 0; w1 = 0; w2 = 0; w3 = 0 };
}

abbrev pub status_request : Request
status_request = record {
  sbc = none;
  cmd = status_command;
  payload = none;
  cap_cmd_during_tfr = false;
}

-- No request yet.
abbrev pub idle_host : Host
idle_host = record {
  dev = device;
  opcodes = opcodes;
  store = λ id. status_request;
  cmd = none;
  data_cmd = none;
  deferred_cmd = none;
  payload = none;
  mrqs_done = none ∷ none ∷ none ∷ none ∷ [];
  pending_reset = false;
  data_early = false;
  always_defer_done = false;
  blocks = 0;
  bounce_buffer = none;
  adma_addr = 0x8000;
  bounce_addr = 0;
  max_blk_size = 512;
  timer = none;
  data_timer = none;
  complete_work = false;
  tuning_done = false;
  thread_isr = 0;
  runtime_suspended = false;
  finished = [];
  bug = false;
}

-- Request 7 is in progress.
abbrev pub busy_host : Host
busy_host = record idle_host { cmd = some (main_of 7); timer = some 10000 }

-- Requests 7 and 8 are done.
abbrev pub done_host : Host
done_host = record idle_host { mrqs_done = some 7 ∷ none ∷ some 8 ∷ none ∷ [] }

-- A controller whose command line is in use.
abbrev pub inhibited_host : Host
inhibited_host = record idle_host { dev = record device { hw = λ n reg. 1 } }
