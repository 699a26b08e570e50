-- ===== src/Power/Laws.antt =====
-- sdhci_set_power_noreg: the cached power and the register.
use linux_sdhci_rtt.Base.{
  refl, has, subst, ==→eq, ap, sym, ◌∙◌, u8, not, true, false, if_both, if_case, ℕ, ◌≡◌, Bool, List,
  [], ◌∷◌, ◌==◌, bit_or, if◌then◌else◌,
}
use linux_sdhci_rtt.Regs.{
  power_control, power_on, quirk_single_power_write, quirk_no_simult_vdd_and_power,
  quirk2_card_on_needs_bus_on,
}
use linux_sdhci_rtt.Device.{M, ret, put, ◌>>◌, when, Device, Write, writeb}
use linux_sdhci_rtt.Reset.{bus_on, bus_off}
use linux_sdhci_rtt.Power.{power_up, power_down, Vdd, power_bits, set_power_noreg}

-- The value of the power control register that was written last, or one from before.
abbrev pub last_power : ℕ → List Write → ℕ
last_power v [] = v
last_power v (w ∷ ws) =
    let older = last_power v ws in if w.reg == power_control then w.val else older

-- What the register should hold for a cached power: the voltage bits with the power bit, or 0.
abbrev pub power_value : ℕ → ℕ
power_value pwr = if pwr == 0 then 0 else bit_or pwr power_on

-- The device after a change of the power to `pwr`.
abbrev Agrees : ℕ → ℕ → Device → Type 0
Agrees v pwr d = (d.pwr ≡ pwr) × (last_power v d.log ≡ power_value d.pwr)

fits_byte : (vdd : Vdd) → u8 (bit_or (power_bits vdd) power_on) ≡ bit_or (power_bits vdd) power_on
unfolding power_bits
fits_byte Vdd.vdd_165_195 = refl
fits_byte Vdd.vdd_20_21 = refl
fits_byte Vdd.vdd_29_30 = refl
fits_byte Vdd.vdd_30_31 = refl
fits_byte Vdd.vdd_32_33 = refl
fits_byte Vdd.vdd_33_34 = refl
fits_byte Vdd.other_vdd = refl

when-bus_on :
    (b : Bool) (d : Device) → ((when b bus_on d).1.pwr ≡ d.pwr) × ((when b bus_on d).1.log ≡ d.log)
unfolding bus_on
when-bus_on true d = (refl, refl)
when-bus_on false d = (refl, refl)

when-bus_off :
    (b : Bool) (d : Device)
    → ((when b bus_off d).1.pwr ≡ d.pwr) × ((when b bus_off d).1.log ≡ d.log)
unfolding bus_off
when-bus_off true d = (refl, refl)
when-bus_off false d = (refl, refl)

when_write : (b : Bool) (val : ℕ) (d : Device) → (when b (writeb val power_control) d).1.pwr ≡ d.pwr
unfolding writeb
when_write true val d = refl
when_write false val d = refl

power_up-Agrees :
    (v pwr : ℕ) (d : Device)
    → u8 (bit_or pwr power_on) ≡ bit_or pwr power_on
    → (pwr == 0) ≡ false
    → d.pwr ≡ pwr
    → Agrees v pwr (power_up pwr d).1
unfolding power_up writeb
power_up-Agrees v pwr d fits on same =
    let d1 = (when (not (has d.quirks quirk_single_power_write)) (writeb 0 power_control) d).1 in
    let d2 = (when (has d.quirks quirk_no_simult_vdd_and_power) (writeb pwr power_control) d1).1 in
    let d3 = (writeb (bit_or pwr power_on) power_control d2).1 in
    let last = when-bus_on (has d.quirks2 quirk2_card_on_needs_bus_on) d3 in
    let pw =
      last.0
      ∙ when_write (has d.quirks quirk_no_simult_vdd_and_power) pwr d1
      ∙ when_write (not (has d.quirks quirk_single_power_write)) 0 d
      ∙ same in
    (
      pw,
      ap (last_power v) last.1
          ∙ fits
          ∙ sym (ap power_value pw ∙ ap (λ b. if b then 0 else bit_or pwr power_on) on),
    )

power_down-Agrees : (v : ℕ) (d : Device) → d.pwr ≡ 0 → Agrees v 0 (power_down d).1
unfolding power_down writeb
power_down-Agrees v d off =
    let d1 = (writeb 0 power_control d).1 in
    let last = when-bus_off (has d1.quirks2 quirk2_card_on_needs_bus_on) d1 in
    (last.0 ∙ off, ap (last_power v) last.1 ∙ sym (ap power_value (last.0 ∙ off)))

-- If the power register, by its newest write, agrees with the cached power,
-- then sdhci_set_power_noreg leaves the requested power in the cache and a register that agrees
-- with it, whatever the quirks.
pub set_power_noreg-agrees :
    (on : Bool) (vdd : Vdd) (v : ℕ) (d : Device)
    → last_power v d.log ≡ power_value d.pwr
    → let d' = (set_power_noreg on vdd d).1 in
      (d'.pwr ≡ (if on then power_bits vdd else 0)) × (last_power v d'.log ≡ power_value d'.pwr)
unfolding set_power_noreg
set_power_noreg-agrees on vdd v d h =
    changed (if on then power_bits vdd else 0)
      (if_both (λ p. u8 (bit_or p power_on) ≡ bit_or p power_on) on (fits_byte vdd) refl)
  where
    changed :
        (p : ℕ)
        → u8 (bit_or p power_on) ≡ bit_or p power_on
        → let g =
            ((if d.pwr == p
                then ret tt
                else (do put (record d { pwr = p }); if p == 0 then power_down else power_up p))
              d).1 in
          (g.pwr ≡ p) × (last_power v g.log ≡ power_value g.pwr)
    changed p fits =
        if_case (λ (m : M (Unit {0})). Agrees v p (m d).1) (d.pwr == p) (λ e. (==→eq d.pwr p e, h))
          (λ _.
            if_case (λ (m : M (Unit {0})). Agrees v p (m (record d { pwr = p })).1) (p == 0)
              (λ e.
                subst (λ q. Agrees v q (power_down (record d { pwr = p })).1) (sym (==→eq p 0 e))
                  (power_down-Agrees v (record d { pwr = p }) (==→eq p 0 e)))
              (λ e. power_up-Agrees v p (record d { pwr = p }) fits e refl))
