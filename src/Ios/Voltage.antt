-- ===== src/Ios/Voltage.antt =====
-- sdhci_start_signal_voltage_switch: what each of its results stands for.
use linux_sdhci_rtt.Base.{
  ℕ, ◌≤◌, ◌≡◌, refl, ap, sym, ◌∙◌, subst, bit_or, bit_and, Bool, true, false, not, if◌then◌else◌,
  has, clear, u16, bit, bit-bit_or, bit-bit_and, bit-le, bit-word, has-bit, arith,
}
use linux_sdhci_rtt.Regs.{host_control2, ctrl_vdd_180, spec_300, signaling_330, signaling_180}
use linux_sdhci_rtt.Device.{Device, M, ◌>>◌, ret, readw, writew}
use linux_sdhci_rtt.Device.Quiet.{Quiet, last_write}
use linux_sdhci_rtt.Ios.{
  Ops, SignalVoltage, voltage_330, voltage_180, Switch, switched, invalid, again, voltage_stable,
  voltage_switch_to, start_signal_voltage_switch,
}

-- The bit that enables 1.8 V, as it was last written and as it is read then.
abbrev Asked : Bool → Bool → Device → Type 0
Asked want seen e =
    (has (last_write host_control2 e.log) ctrl_vdd_180 ≡ want)
    × ((d : Device) × ((e ≡ (readw host_control2 d).1)
          × (has (readw host_control2 d).0 ctrl_vdd_180 ≡ seen)))

-- What a result stands for. Success: the host has the voltage, the bit was written and reads back. -EAGAIN: the
-- bit was written, but does not read back. -EINVAL: the host lacks the voltage, and nothing was written.
abbrev pub Answers : Bool → ℕ → Device → Switch → Device → Type 0
Answers want flag d switched e = (has d.flags flag ≡ true) × Asked want want e
Answers want flag d again e = (has d.flags flag ≡ true) × Asked want (not want) e
Answers want flag d invalid e = (has d.flags flag ≡ false) × (e.log ≡ d.log)

set_low : (a : ℕ) → bit (bit_or a ctrl_vdd_180) 3 ≡ 1
unfolding bit
set_low a = ground (arith, bit-bit_or 3 a 8, bit-le 3 a)

cleared : (ctrl : ℕ) → has (u16 (clear 16 ctrl ctrl_vdd_180)) ctrl_vdd_180 ≡ false
unfolding clear bit
cleared ctrl = ground (
  arith,
  has-bit 3 (u16 (bit_and ctrl 0xfff7)),
  bit-word 16 3 (bit_and ctrl 0xfff7) (omega arith),
  bit-bit_and 3 ctrl 0xfff7,
)

is_set : (ctrl : ℕ) → has (u16 (bit_or ctrl ctrl_vdd_180)) ctrl_vdd_180 ≡ true
is_set ctrl = ground (
  arith,
  has-bit 3 (u16 (bit_or ctrl 8)),
  bit-word 16 3 (bit_or ctrl 8) (omega arith),
  set_low ctrl,
)

seen-Answers :
    (seen want : Bool) (flag : ℕ) (d e : Device)
    → has d.flags flag ≡ true
    → has (last_write host_control2 e.log) ctrl_vdd_180 ≡ want
    → has (readw host_control2 e).0 ctrl_vdd_180 ≡ seen
    → Answers want flag d
        (if seen then if want then switched else again else if want then again else switched)
        (readw host_control2 e).1
unfolding readw
seen-Answers true true flag d e there wrote s = (there, (wrote, (e, (refl, s))))
seen-Answers true false flag d e there wrote s = (there, (wrote, (e, (refl, s))))
seen-Answers false true flag d e there wrote s = (there, (wrote, (e, (refl, s))))
seen-Answers false false flag d e there wrote s = (there, (wrote, (e, (refl, s))))

stable-Answers :
    (want : Bool) (flag : ℕ) (d e : Device)
    → has d.flags flag ≡ true
    → has (last_write host_control2 e.log) ctrl_vdd_180 ≡ want
    → Answers want flag d (voltage_stable want e).0 (voltage_stable want e).1
unfolding voltage_stable
stable-Answers want flag d e there wrote = seen-Answers _ want flag d e there wrote refl

writew-last :
    (val : ℕ) (d : Device) → last_write host_control2 (writew val host_control2 d).1.log ≡ u16 val
unfolding writew
writew-last val d = refl

-- A host that may change the voltage, and one that may not.
chosen :
    (b want : Bool) (flag : ℕ) (d e : Device) (m : M Switch)
    → has d.flags flag ≡ b
    → e.log ≡ d.log
    → (has d.flags flag ≡ true → Answers want flag d (m e).0 (m e).1)
    → Answers want flag d
        ((if not b then ret invalid else m) e).0
        ((if not b then ret invalid else m) e).1
chosen true want flag d e m s same ok = ok s
chosen false want flag d e m s same ok = (s, same)

module _ (ops : Ops) (quiet : Quiet host_control2 ops.voltage_switch) where
  to_330 :
      (d : Device)
      → Answers false signaling_330 d
          (voltage_switch_to ops voltage_330 (readw host_control2 d).0 (readw host_control2 d).1).0
          (voltage_switch_to ops voltage_330 (readw host_control2 d).0 (readw host_control2 d).1).1
  unfolding voltage_switch_to readw
  to_330 d =
      let (ctrl, e) = readw host_control2 d in
      let val = clear 16 ctrl ctrl_vdd_180 in
      chosen (has d.flags signaling_330) false signaling_330 d e
        (writew val host_control2 >> voltage_stable false) refl refl
        (λ there.
          stable-Answers false signaling_330 d (writew val host_control2 e).1 there
            (ap (λ (v : ℕ). has v ctrl_vdd_180) (writew-last val e) ∙ cleared ctrl))

  to_180 :
      (d : Device)
      → Answers true signaling_180 d
          (voltage_switch_to ops voltage_180 (readw host_control2 d).0 (readw host_control2 d).1).0
          (voltage_switch_to ops voltage_180 (readw host_control2 d).0 (readw host_control2 d).1).1
  unfolding voltage_switch_to readw
  to_180 d =
      let (ctrl, e) = readw host_control2 d in
      let val = bit_or ctrl ctrl_vdd_180 in
      let e1 = (writew val host_control2 e).1 in
      chosen (has d.flags signaling_180) true signaling_180 d e
        (do writew val host_control2; ops.voltage_switch; voltage_stable true) refl refl
        (λ there.
          stable-Answers true signaling_180 d (ops.voltage_switch e1).1 there
            (ap (λ (v : ℕ). has v ctrl_vdd_180) (quiet e1 ∙ writew-last val e) ∙ is_set ctrl))

  started :
      (v : SignalVoltage) (d : Device)
      → spec_300 ≤ d.version
      → start_signal_voltage_switch ops v d
        ≡ voltage_switch_to ops v (readw host_control2 d).0 (readw host_control2 d).1
  unfolding start_signal_voltage_switch
  started v d recent = ground (arith, recent)

  -- From version 3.00 on, if the platform's own switch writes nothing to the register: a switch to 1.8 V or to
  -- 3.3 V succeeds only on a host that has the voltage, with the bit for 1.8 V written accordingly and read back so; it
  -- asks to be tried again if the bit does not read back; and it is refused, with nothing written, if the host lacks
  -- the voltage.
  pub start_signal_voltage_switch-Answers :
      (d : Device)
      → spec_300 ≤ d.version
      → Answers true signaling_180 d
          (start_signal_voltage_switch ops voltage_180 d).0
          (start_signal_voltage_switch ops voltage_180 d).1
        × Answers false signaling_330 d
            (start_signal_voltage_switch ops voltage_330 d).0
            (start_signal_voltage_switch ops voltage_330 d).1
  start_signal_voltage_switch-Answers d recent = (
    subst (λ (r : Switch × Device). Answers true signaling_180 d r.0 r.1)
        (sym (started voltage_180 d recent)) (to_180 d),
    subst (λ (r : Switch × Device). Answers false signaling_330 d r.0 r.1)
        (sym (started voltage_330 d recent)) (to_330 d),
  )
