-- ===== src/Driver/Power/Laws.antt =====
-- The power bits are exclusive, and what each setter leaves alone.
use p4_hmd.Base.{◌+◌, ◌≡◌, ◌≤◌, refl, ap, ◌∙◌, if_ind, arith, Bool, true, false, if◌then◌else◌}
use p4_hmd.Driver.State.{Device, DisplayFlags, PowerMode, off, blank, low, normal, bit}
use p4_hmd.Driver.Power.{
  apply_power_mode, p4_set_power_mode, p4_set_brightness, power_bits, effective_mode,
}

-- At most one power bit is set.
abbrev pub Exclusive : DisplayFlags → Type 0
Exclusive f = bit f.standby + bit f.blank + bit f.low_intensity ≤ 1

-- The flags of a mode with the rotation bit `upside_down`.
abbrev pub mode_flags : Bool → PowerMode → DisplayFlags
mode_flags upside_down mode =
    power_bits
      (record { low_intensity = false; blank = false; standby = false; upside_down = upside_down })
      mode

pub power_bits-Exclusive :
    (b : Bool) (mode : PowerMode)
    → Exclusive (mode_flags b mode) × ((mode_flags b mode).upside_down ≡ b)
power_bits-Exclusive b off = (omega arith, refl)
power_bits-Exclusive b blank = (omega arith, refl)
power_bits-Exclusive b low = (omega arith, refl)
power_bits-Exclusive b normal = (omega arith, refl)

-- The flags of each mode as kmod/p4.h describes them.
abbrev pub documented : Bool → PowerMode → DisplayFlags
documented flip off = record {
  low_intensity = false;
  blank = false;
  standby = true;
  upside_down = flip;
}
documented flip blank = record {
  low_intensity = false;
  blank = true;
  standby = false;
  upside_down = flip;
}
documented flip low = record {
  low_intensity = true;
  blank = false;
  standby = false;
  upside_down = flip;
}
documented flip normal = record {
  low_intensity = false;
  blank = false;
  standby = false;
  upside_down = flip;
}

-- The device with its flags those of a mode.
abbrev pub showing : Device → PowerMode → Device
showing p4 mode = record p4 { display_flags = documented p4.display_flags.upside_down mode }

apply_power_mode_lem : (p4 : Device) (mode : PowerMode) → apply_power_mode p4 mode ≡ showing p4 mode
unfolding apply_power_mode
apply_power_mode_lem p4 off = refl
apply_power_mode_lem p4 blank = refl
apply_power_mode_lem p4 low = refl
apply_power_mode_lem p4 normal = refl

-- Whatever the flags were, after `p4_set_power_mode` at most one power bit is set and the rotation
-- bit is the old one. The flags are those that kmod/p4.h describes for the mode: standby for off, blank
-- for blank, low intensity for low, and for normal those of the target power. Nothing else is changed.
pub p4_set_power_mode-Exclusive :
    (p4 : Device) (mode : PowerMode)
    → let f = (p4_set_power_mode p4 mode).display_flags in
      Exclusive f
      × (f.upside_down ≡ p4.display_flags.upside_down)
      × (p4_set_power_mode p4 off ≡ showing p4 off)
      × (p4_set_power_mode p4 blank ≡ showing p4 blank)
      × (p4_set_power_mode p4 low ≡ showing p4 low)
      × (p4_set_power_mode p4 normal ≡ showing p4 p4.target_power)
unfolding p4_set_power_mode apply_power_mode
p4_set_power_mode-Exclusive p4 mode =
    let p =
      power_bits-Exclusive p4.display_flags.upside_down (effective_mode p4.target_power mode) in
    (p.0, p.1, refl, refl, refl, apply_power_mode_lem p4 p4.target_power)

-- The brightness `b` becomes the target power, is shown at once unless the display is in standby, and
-- is what `p4_set_power_mode` shows for normal from then on.
abbrev pub Takes : Device → PowerMode → Type 0
Takes p4 b =
    let p4' = record p4 { target_power = b } in
    (p4_set_brightness p4 b ≡ (if p4.display_flags.standby then p4' else showing p4' b))
    × ((p4_set_power_mode (p4_set_brightness p4 b) normal).display_flags
        ≡ documented p4.display_flags.upside_down b)

documented_again :
    (flip : Bool) (a b : PowerMode)
    → documented (documented flip a).upside_down b ≡ documented flip b
documented_again flip off b = refl
documented_again flip blank b = refl
documented_again flip low b = refl
documented_again flip normal b = refl

accepted :
    (p4 : Device) (b : PowerMode)
    → p4_set_brightness p4 b ≡ (
        let p4' = record p4 { target_power = b } in
        if p4.display_flags.standby then p4' else apply_power_mode p4' b)
    → Takes p4 b
unfolding p4_set_power_mode
accepted p4 b e =
    let p4' = record p4 { target_power = b } in
    let shown = apply_power_mode_lem p4' b in
    let now = e ∙ ap (λ (q : Device). if p4.display_flags.standby then p4' else q) shown in
    let later =
      if_ind
        (λ (q : Device).
          (p4_set_power_mode q normal).display_flags ≡ documented p4.display_flags.upside_down b)
        p4.display_flags.standby p4' (showing p4' b)
        (λ _. ap (λ (q : Device). q.display_flags) shown)
        (λ _.
          ap (λ (q : Device). q.display_flags) (apply_power_mode_lem (showing p4' b) b)
          ∙ documented_again p4.display_flags.upside_down b b) in
    (now, ap (λ (q : Device). (p4_set_power_mode q normal).display_flags) now ∙ later)

-- `p4_set_brightness` with off changes nothing. Blank, low and normal become the target power, also in
-- standby, where kmod/p4.h documents a call without effect. The flags of a display that is not in
-- standby become at once those that kmod/p4.h describes for the brightness; one in standby keeps its
-- flags. Nothing else is changed, and a later `p4_set_power_mode` to normal shows the brightness.
pub p4_set_brightness-target :
    (p4 : Device)
    → (p4_set_brightness p4 off ≡ p4) × Takes p4 blank × Takes p4 low × Takes p4 normal
unfolding p4_set_brightness
p4_set_brightness-target p4 =
    (refl, accepted p4 blank refl, accepted p4 low refl, accepted p4 normal refl)
