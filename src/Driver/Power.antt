-- ===== src/Driver/Power.antt =====
-- The display flags of kmod/sender.c: rotation by the hardware, power modes and brightness.
pub mod Laws
use p4_hmd.Base.{Bool, true, false, if◌then◌else◌}
use p4_hmd.Driver.State.{Device, DisplayFlags, PowerMode, off, blank, low, normal}

unfoldable pub p4_set_upside_down : Device → Bool → Device
p4_set_upside_down p4 enable = record p4 {
  display_flags = record (p4.display_flags) { upside_down = enable };
}

-- The `switch` of `apply_power_mode`, on flags whose power bits are clear.
abbrev pub power_bits : DisplayFlags → PowerMode → DisplayFlags
power_bits f off = record f { standby = true }
power_bits f blank = record f { blank = true }
power_bits f low = record f { low_intensity = true }
power_bits f normal = f

unfoldable pub apply_power_mode : Device → PowerMode → Device
apply_power_mode p4 mode =
    let cleared = record (p4.display_flags) {
      standby = false;
      blank = false;
      low_intensity = false;
    } in
    record p4 { display_flags = power_bits cleared mode }

-- `mode == P4_POWER_NORMAL ? p4->target_power : mode`
abbrev pub effective_mode : PowerMode → PowerMode → PowerMode
effective_mode target off = off
effective_mode target blank = blank
effective_mode target low = low
effective_mode target normal = target

unfoldable pub p4_set_power_mode : Device → PowerMode → Device
p4_set_power_mode p4 mode = apply_power_mode p4 (effective_mode p4.target_power mode)

-- `brightness < P4_POWER_BLANK || brightness > P4_POWER_NORMAL`
abbrev pub bad_brightness : PowerMode → Bool
bad_brightness off = true
bad_brightness blank = false
bad_brightness low = false
bad_brightness normal = false

unfoldable pub p4_set_brightness : Device → PowerMode → Device
p4_set_brightness p4 brightness =
    let p4' = record p4 { target_power = brightness } in
    if bad_brightness brightness
    then p4
    else (if p4.display_flags.standby then p4' else apply_power_mode p4' brightness)
