-- ===== src/Driver/Dpms.antt =====
-- The callers of the sender: kmod/dpms.c, kmod/sleep.c, kmod/backlight.c and the callbacks of
-- kmod/drm_p4_main.c that do not touch pixels.
pub mod Laws
use p4_hmd.Base.{ℕ, zero, suc, Bool, true, false, xor, if◌then◌else◌}
use p4_hmd.Driver.State.{
  Device, Rotation, BlankState, Clock, Handshake, off, blank, low, normal, unblank, normal_blank,
  vsync_suspend, hsync_suspend, powerdown, rot_0, rot_90, rot_180, rot_270,
}
use p4_hmd.Driver.Power.{p4_set_power_mode, p4_set_brightness, p4_set_upside_down}
use p4_hmd.Driver.Lifecycle.{
  p4_sender_powerup, p4_sender_powerdown, p4_sender_suspend, p4_sender_resume, p4_sender_enable,
  p4_sender_disable,
}

-- The DRM_MODE_DPMS_* modes; any other number is `other`.
pub data DpmsMode : Type 0 where
  dpms_on dpms_standby dpms_suspend dpms_off other : DpmsMode

abbrev pub dpms_to_blank : DpmsMode → BlankState
dpms_to_blank dpms_on = unblank
dpms_to_blank dpms_standby = normal_blank
dpms_to_blank dpms_suspend = vsync_suspend
dpms_to_blank dpms_off = powerdown
dpms_to_blank other = powerdown

abbrev pub same_blank : BlankState → BlankState → Bool
same_blank unblank unblank = true
same_blank normal_blank normal_blank = true
same_blank vsync_suspend vsync_suspend = true
same_blank hsync_suspend hsync_suspend = true
same_blank powerdown powerdown = true
same_blank _ _ = false

-- The `switch` of `p4_dpms_set`. `cold` is the COLD pin at a powerup, `others` what runs during a
-- powerdown.
abbrev pub enter_blank : Bool → (Device → Device) → BlankState → Device → Device
enter_blank cold others unblank p4 = p4_set_power_mode (p4_sender_powerup cold p4) normal
enter_blank cold others normal_blank p4 = p4_set_power_mode p4 blank
enter_blank cold others vsync_suspend p4 = p4_set_power_mode p4 off
enter_blank cold others hsync_suspend p4 = p4_set_power_mode p4 off
enter_blank cold others powerdown p4 = p4_sender_powerdown others (p4_set_power_mode p4 off)

unfoldable pub p4_dpms_set : Bool → (Device → Device) → DpmsMode → Device → Device
p4_dpms_set cold others mode p4 =
    let blank_state = dpms_to_blank mode in
    if same_blank blank_state p4.blank_state
    then p4
    else record (enter_blank cold others blank_state p4) { blank_state = blank_state }

-- `drm_suspend` is what `drm_mode_config_helper_suspend` does, with whether it returns 0.
unfoldable pub p4_suspend :
    (Device → Bool × Device) → (Device → Device) → (Device → Device) → Device → Bool × Device
p4_suspend drm_suspend others stopping p4 =
    let (ok, p4') = drm_suspend (p4_set_power_mode p4 off) in
    if ok
    then (true, p4_sender_suspend others stopping p4')
    else (false, p4_set_power_mode p4' normal)

unfoldable pub p4_resume :
    (Device → Bool × Device)
    → Clock
    → ℕ
    → ℕ
    → Handshake
    → Bool
    → Bool
    → Bool
    → Device
    → Bool × Device
p4_resume drm_resume clock now after h cold started ready p4 =
    let (ok, p4') = p4_sender_resume clock now after h cold started ready p4 in
    if ok then drm_resume (p4_set_power_mode p4' normal) else (false, p4')

-- `map[brightness]`, for what the backlight subsystem passes; the brightness there is not negative.
unfoldable pub bl_update : ℕ → Device → Device
bl_update zero p4 = p4_set_brightness p4 blank
bl_update (suc zero) p4 = p4_set_brightness p4 low
bl_update (suc (suc zero)) p4 = p4_set_brightness p4 normal
bl_update (suc (suc (suc n))) p4 = p4

-- `vblank_on` is what `drm_crtc_vblank_on` does.
unfoldable pub p4_enable : (Device → Device) → Device → Device
p4_enable vblank_on p4 = vblank_on (record (p4_sender_enable p4) { force_full = true })

unfoldable pub p4_disable : (Device → Device) → Device → Device
p4_disable vblank_off p4 = p4_sender_disable (vblank_off p4)

abbrev pub drm_flip : Rotation → Bool
drm_flip rot_0 = false
drm_flip rot_90 = false
drm_flip rot_180 = true
drm_flip rot_270 = true

-- `new_flip` is what the text parses to.
unfoldable pub user_flip_store : Bool → Device → Device
user_flip_store new_flip p4 =
    if xor p4.user_flip new_flip
    then p4_set_upside_down (record p4 { user_flip = new_flip })
        (xor (drm_flip p4.rotation) new_flip)
    else p4
