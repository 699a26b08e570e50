-- ===== src/Reset.antt =====
-- sdhci.c: sdhci_get_cd, sdhci_do_enable_v4_mode, sdhci_set_card_detection, sdhci_runtime_pm_bus_on and _off,
-- sdhci_reset, sdhci_do_reset, sdhci_set_default_irqs, sdhci_init up to its set_ios call,
-- __sdhci_led_activate and __sdhci_led_deactivate. `ops->enable_dma` is not set by the platforms of
-- the repository, and sdhci_reset stands for `ops->reset`. Run-time power management keeps no
-- state beside `bus_on`.
pub mod Quiet
pub mod Keeps
use linux_sdhci_rtt.Base.{ℕ, bit_or, Bool, true, false, not, ◌||◌, ◌==◌, if◌then◌else◌, has, clear}
use linux_sdhci_rtt.Regs.{
  host_control, host_control2, ctrl_v4_mode, ctrl_led, quirk_no_led, quirk_broken_card_detection,
  quirk_no_card_no_reset, quirk2_card_on_needs_bus_on, present_state, card_present, int_card_insert,
  int_card_remove, software_reset, reset_all, reset_cmd, reset_data, int_bus_power,
  int_data_end_bit, int_data_crc, int_data_timeout, int_index, int_end_bit, int_crc, int_timeout,
  int_data_end, int_response, int_retune, tuning_mode_2, tuning_mode_3, device_dead,
}
use linux_sdhci_rtt.Device.{
  M, ◌>>=◌, ◌>>◌, ret, get, put, when, readl, readw, readb, writew, writeb, ktime_get, ktime_add_ms,
}
use linux_sdhci_rtt.Device.Poll.{Poll, poll}
use linux_sdhci_rtt.Timeout.{write_ier}

-- sdhci_get_cd; mmc_gpio_get_cd of the port has no answer, so that the controller is asked.
unfoldable pub get_cd : M Bool
get_cd = do
  d ← get
  if has d.flags device_dead
      then ret false
      else if not d.removable || has d.quirks quirk_broken_card_detection
      then ret true
      else (do state ← readl present_state; ret (has state card_present))

unfoldable pub do_enable_v4_mode : M (Unit {0})
do_enable_v4_mode = do
  ctrl2 ← readw host_control2
  if has ctrl2 ctrl_v4_mode then ret tt else writew (bit_or ctrl2 ctrl_v4_mode) host_control2

unfoldable pub enable_v4_mode : M (Unit {0})
unfolding do_enable_v4_mode
enable_v4_mode = do d ← get; put (record d { v4_mode = true }); do_enable_v4_mode

abbrev pub card_irqs : ℕ
card_irqs = bit_or int_card_remove int_card_insert

unfoldable pub set_card_detection : Bool → M (Unit {0})
unfolding write_ier
set_card_detection enable = do
  d ← get
  if has d.quirks quirk_broken_card_detection || not d.removable
      then ret tt
      else if enable
      then (do
        state ← readl present_state
        write_ier
            (bit_or d.ier (if has state card_present then int_card_remove else int_card_insert)))
      else write_ier (clear 32 d.ier card_irqs)

unfoldable pub bus_on : M (Unit {0})
bus_on = do d ← get; put (record d { bus_on = true })

unfoldable pub bus_off : M (Unit {0})
bus_off = do d ← get; put (record d { bus_on = false })

-- "hw clears the bit when it's done", and the loop waits for it at most 100 ms.
unfoldable pub wait_reset : ℕ → M Poll
wait_reset mask = do
  d ← get
  poll (readb software_reset) (λ v. not (has v mask)) (ktime_add_ms (ktime_get d) 100) d.rounds

unfoldable pub reset : ℕ → M (Unit {0})
unfolding bus_off wait_reset
reset mask = do
  writeb mask software_reset
  d ← get
  when (has mask reset_all)
      (do put (record d { clock = 0 }); when (has d.quirks2 quirk2_card_on_needs_bus_on) bus_off)
  p ← wait_reset mask
  ret tt

unfoldable pub do_reset : ℕ → M (Unit {0})
unfolding reset get_cd
do_reset mask = do
  d ← get
  present ← if has d.quirks quirk_no_card_no_reset then get_cd else ret true
  if not present then ret tt else (do
    reset mask
    e ← get
    when (has mask reset_all) (put (record e { preset_enabled = false })))

unfoldable pub default_ier : ℕ → ℕ
default_ier tuning_mode =
    let base = bit_or int_bus_power (
      bit_or int_data_end_bit (
        bit_or int_data_crc (
          bit_or int_data_timeout (
            bit_or int_index (
              bit_or int_end_bit
                (bit_or int_crc (bit_or int_timeout (bit_or int_data_end int_response)))))))) in
    if tuning_mode == tuning_mode_2 || tuning_mode == tuning_mode_3
    then bit_or base int_retune
    else base

unfoldable pub set_default_irqs : M (Unit {0})
unfolding default_ier write_ier
set_default_irqs = do d ← get; write_ier (default_ier d.tuning_mode)

-- sdhci_init: a soft one resets the command and data circuits, and forgets the clock; the caller
-- then applies `mmc->ios` again.
unfoldable pub init : Bool → M (Unit {0})
unfolding do_reset do_enable_v4_mode set_default_irqs
init soft = do
  do_reset (if soft then bit_or reset_cmd reset_data else reset_all)
  d ← get
  when d.v4_mode do_enable_v4_mode
  set_default_irqs
  e ← get
  put (record e { cqe_on = false; clock = if soft then 0 else e.clock })

unfoldable pub led_activate : M (Unit {0})
led_activate = do
  d ← get
  when (not (has d.quirks quirk_no_led))
      (do ctrl ← readb host_control; writeb (bit_or ctrl ctrl_led) host_control)

unfoldable pub led_deactivate : M (Unit {0})
led_deactivate = do
  d ← get
  when (not (has d.quirks quirk_no_led))
      (do ctrl ← readb host_control; writeb (clear 8 ctrl ctrl_led) host_control)
