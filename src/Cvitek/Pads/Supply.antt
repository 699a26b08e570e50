-- ===== src/Cvitek/Pads/Supply.antt =====
-- The power switch of the SD host of the CV181x: `cvi_host->sdio0_voltage_1_8_v` against what was written
-- to the switch, over all sequences of calls of the host's operations.
use linux_sdhci_rtt.Base.{
  ℕ, ◌+◌, ◌*◌, ◌/◌, ◌%◌, ◌^◌, ◌<◌, ◌≡◌, refl, ap, sym, ◌∙◌, Bool, true, false, Option, none, some,
  List, [], ◌∷◌, ◌==◌, bit_and, bit_or, if◌then◌else◌, arith, bit_and_step, bit_or_low, bit_or_comm,
  zero-bit_or, ==→eq, if_case,
}
use linux_sdhci_rtt.Device.{Device, Timing, Write, M, readl, writel}
use linux_sdhci_rtt.Reset.{get_cd}
use linux_sdhci_rtt.Device.Quiet.{Quiet, last_write}
use linux_sdhci_rtt.Reset.Quiet.{get_cd-Quiet}
use linux_sdhci_rtt.Power.{Vdd, set_power_noreg}
use linux_sdhci_rtt.Power.Mode.{PowerMode}
use linux_sdhci_rtt.Cvitek.{sd_reset, general_set_uhs_signaling}
use linux_sdhci_rtt.Cvitek.Pads.{
  restore_ds_hs, top_base, offset_sd_pwrsw_ctrl, CviHost, on_cvi, set_pwrsw, sd_voltage_restore,
  sd_setup_pad, sd_setup_io, sd_set_power, sd_voltage_switch, max_clk_strength,
}
use linux_sdhci_rtt.Clock.Enable.{set_clock}
use linux_sdhci_rtt.Card.{Lines, set_bus_width}
use linux_sdhci_rtt.Cvitek.Tuning.{Tuned, general_execute_tuning}
use linux_sdhci_rtt.Cvitek.Pads.Steady.{
  set_clock-Quiet, set_bus_width-Quiet, general_execute_tuning-Quiet,
}
use linux_sdhci_rtt.Cvitek.Pads.Quiet.{
  pwrsw, sd_setup_pad-Quiet, sd_setup_io-Quiet, restore_ds_hs-Quiet, set_power_noreg-Quiet,
  set_uhs_signaling-Quiet, sd_reset-Quiet,
}

-- The low four bits of the newest write to the power switch: 0xb supplies 1.8 V.
abbrev pub switch_state : List Write → ℕ
switch_state log = last_write pwrsw log % 16

low_bits : (bits x : ℕ) → bits < 16 → bit_or bits (bit_and x 0xfffffff0) % 16 ≡ bits
low_bits bits x lt = omega (
  arith,
  bit_or_comm bits (bit_and x 0xfffffff0),
  ap (λ (t : ℕ). bit_or t bits) high,
  bit_or_low 4 (bit_and (x / 2 / 2 / 2 / 2) 0xfffffff) 0 bits (omega arith) lt,
  zero-bit_or bits,
)
  where
    high : bit_and x 0xfffffff0 ≡ bit_and (x / 2 / 2 / 2 / 2) 0xfffffff * 2 ^ 4 + 0
    high = omega (
      arith,
      bit_and_step x 0xfffffff0,
      bit_and_step (x / 2) 0x7ffffff8,
      bit_and_step (x / 2 / 2) 0x3ffffffc,
      bit_and_step (x / 2 / 2 / 2) 0x1ffffffe,
    )

set_pwrsw_lem : (bits : ℕ) (d : Device) → bits < 16 → switch_state (set_pwrsw bits d).1.log ≡ bits
unfolding set_pwrsw readl writel
set_pwrsw_lem bits d lt =
    omega (arith, low_bits bits (readl (top_base + offset_sd_pwrsw_ctrl) d).0 lt)

-- The operations of `sdhci_cv181x_sd_ops`: reset, set_clock, set_power, set_bus_width, set_uhs_signaling,
-- voltage_switch and platform_execute_tuning. The other two, get_max_clock and adma_write_desc, reach no register.
pub data SdOp : Type 0 where
  op_reset op_clock : ℕ → SdOp
  op_power : PowerMode → Vdd → SdOp
  op_width : Bool → Lines → SdOp
  op_uhs : Timing → SdOp
  op_switch op_tune : SdOp

-- The tap that is cached, where the tuning has come to one.
abbrev tap_or : ℕ → Option Tuned → ℕ
tap_or old none = old
tap_or old (some t) = t.final_tap

abbrev tune : M ℕ → CviHost → CviHost
tune send c = record (on_cvi (general_execute_tuning send) c) {
  final_tap = tap_or c.final_tap (general_execute_tuning send c.dev).0;
}

abbrev pub run_op : M ℕ → SdOp → CviHost → CviHost
run_op send (op_reset mask) c = on_cvi (sd_reset c.final_tap mask) c
run_op send (op_clock clock) c = on_cvi (set_clock c.dev.rounds clock) c
run_op send (op_power mode vdd) c = sd_set_power mode vdd c
run_op send (op_width caps8 width) c = on_cvi (set_bus_width caps8 width) c
run_op send (op_uhs uhs) c = on_cvi (general_set_uhs_signaling uhs) c
run_op send op_switch c = sd_voltage_switch c
run_op send op_tune c = tune send c

abbrev pub run_ops : M ℕ → List SdOp → CviHost → CviHost
run_ops send [] c = c
run_ops send (o ∷ os) c = run_ops send os (run_op send o c)

-- The flag is 1 exactly if the switch was last told to supply 1.8 V.
abbrev pub TellsSupply : CviHost → Type 0
TellsSupply c = (c.sdio0_voltage_1_8_v ≡ (if switch_state c.dev.log == 0xb then 1 else 0))

on_cvi-TellsSupply :
    {A : Type 0} (m : M A) (c : CviHost) → Quiet pwrsw m → TellsSupply c → TellsSupply (on_cvi m c)
on_cvi-TellsSupply m c q t = t ∙ ap (λ (v : ℕ). if v % 16 == 0xb then 1 else 0) (sym (q c.dev))

-- The flag behind a write of four bits to the switch.
told :
    (bits flag : ℕ) (d : Device)
    → bits < 16
    → flag ≡ (if bits == 0xb then 1 else 0)
    → flag ≡ (if switch_state (set_pwrsw bits d).1.log == 0xb then 1 else 0)
told bits flag d lt e =
    e ∙ ap (λ (s : ℕ). if s == 0xb then 1 else 0) (sym (set_pwrsw_lem bits d lt))

restored : (b : Bool) (c : CviHost) → TellsSupply c → TellsSupply (sd_voltage_restore b c)
unfolding sd_voltage_restore
restored true c t =
    on_cvi-TellsSupply restore_ds_hs (record (on_cvi (set_pwrsw 0xe) c) { sdio0_voltage_1_8_v = 0 })
      restore_ds_hs-Quiet (told 0xe 0 c.dev (omega arith) refl)
restored false c t =
    on_cvi-TellsSupply restore_ds_hs
      (if c.sdio0_voltage_1_8_v == 0 then on_cvi (set_pwrsw 0x9) c else c) restore_ds_hs-Quiet
      (if_case TellsSupply (c.sdio0_voltage_1_8_v == 0)
        (λ zero_flag. told 0x9 c.sdio0_voltage_1_8_v c.dev (omega arith) (==→eq _ _ zero_flag))
        (λ set. t))

powered :
    (mode : PowerMode) (vdd : Vdd) (c : CviHost)
    → TellsSupply c
    → TellsSupply (sd_set_power mode vdd c)
unfolding sd_set_power
powered PowerMode.power_on vdd c t =
    let c1 = on_cvi get_cd c in
    let c2 = on_cvi (set_power_noreg true vdd) c1 in
    let c3 = sd_voltage_restore false c2 in
    let c4 = on_cvi (sd_setup_pad false) c3 in
    let t1 = on_cvi-TellsSupply get_cd c (get_cd-Quiet pwrsw) t in
    if_case TellsSupply (get_cd c.dev).0
      (λ present. on_cvi-TellsSupply (sd_setup_io false) c4 (sd_setup_io-Quiet false) (
        on_cvi-TellsSupply (sd_setup_pad false) c3 (sd_setup_pad-Quiet false) (
          restored false c2 (
            on_cvi-TellsSupply (set_power_noreg true vdd) c1 (set_power_noreg-Quiet true vdd) t1))))
      (λ absent. t1)
powered PowerMode.power_up vdd c t = t
powered PowerMode.power_undefined vdd c t = t
powered PowerMode.power_off vdd c t =
    let c1 = on_cvi (sd_setup_pad true) c in
    let c2 = on_cvi (sd_setup_io true) c1 in
    on_cvi-TellsSupply (set_power_noreg false vdd) (sd_voltage_restore true c2)
      (set_power_noreg-Quiet false vdd)
      (restored true c2 (
        on_cvi-TellsSupply (sd_setup_io true) c1 (sd_setup_io-Quiet true)
          (on_cvi-TellsSupply (sd_setup_pad true) c (sd_setup_pad-Quiet true) t)))

switched : (c : CviHost) → TellsSupply (sd_voltage_switch c)
unfolding sd_voltage_switch readl
switched c = told 0xb 1 (max_clk_strength c.dev).1 (omega arith) refl

module _ (send : M ℕ) (quiet : Quiet pwrsw send) where
  run_op-TellsSupply : (o : SdOp) (c : CviHost) → TellsSupply c → TellsSupply (run_op send o c)
  run_op-TellsSupply (op_reset mask) c t =
      on_cvi-TellsSupply (sd_reset c.final_tap mask) c (sd_reset-Quiet c.final_tap mask) t
  run_op-TellsSupply (op_clock clock) c t =
      on_cvi-TellsSupply (set_clock c.dev.rounds clock) c (set_clock-Quiet c.dev.rounds clock) t
  run_op-TellsSupply (op_power mode vdd) c t = powered mode vdd c t
  run_op-TellsSupply (op_width caps8 width) c t =
      on_cvi-TellsSupply (set_bus_width caps8 width) c (set_bus_width-Quiet caps8 width) t
  run_op-TellsSupply (op_uhs uhs) c t =
      on_cvi-TellsSupply (general_set_uhs_signaling uhs) c (set_uhs_signaling-Quiet uhs) t
  run_op-TellsSupply op_switch c t = switched c
  run_op-TellsSupply op_tune c t =
      on_cvi-TellsSupply (general_execute_tuning send) c (general_execute_tuning-Quiet send quiet) t

  -- If the flag sdio0_voltage_1_8_v agrees with the power switch at first, and the tuning commands write nothing to the
  -- switch, then after every sequence of calls of reset, set_clock, set_power, set_bus_width, set_uhs_signaling,
  -- voltage_switch and platform_execute_tuning of the SD host it is 1 exactly if the newest write to the switch
  -- supplies 1.8 V.
  pub run_ops-TellsSupply :
      (os : List SdOp) (c : CviHost) → TellsSupply c → TellsSupply (run_ops send os c)
  run_ops-TellsSupply [] c t = t
  run_ops-TellsSupply (o ∷ os) c t =
      run_ops-TellsSupply os (run_op send o c) (run_op-TellsSupply o c t)
