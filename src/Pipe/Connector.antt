-- ===== src/Pipe/Connector.antt =====
-- The connector and the atomic check of kmod/drm_boilerplate.h.
use p4_hmd.Base.{ℕ, ◌*◌, ◌/◌, ◌≡◌, refl, arith, Bool, true, false, not, ◌&&◌, ◌||◌, if◌then◌else◌}
use p4_hmd.Base.{Option, none, some, List, [], ◌∷◌}
use p4_hmd.Update.Encoder.{p4_width, p4_height}
use p4_hmd.Driver.State.{Device}
use p4_hmd.Driver.Dpms.{DpmsMode, p4_dpms_set}

pub data ConnectorStatus : Type 0 where
  connected disconnected : ConnectorStatus

unfoldable pub p4_connector_detect : Device → ConnectorStatus
p4_connector_detect p4 = if p4.display_connected then connected else disconnected

-- The fields of `struct drm_display_mode` that the driver sets.
pub record DisplayMode : Type 0 where
  pub hdisplay : ℕ
  pub hsync_start : ℕ
  pub hsync_end : ℕ
  pub htotal : ℕ
  pub vdisplay : ℕ
  pub vsync_start : ℕ
  pub vsync_end : ℕ
  pub vtotal : ℕ
  pub clock : ℕ
  pub width_mm : ℕ
  pub height_mm : ℕ
  pub preferred : Bool

abbrev pub only_mode : DisplayMode
only_mode = record {
  hdisplay = p4_width;
  hsync_start = p4_width;
  hsync_end = p4_width;
  htotal = p4_width;
  vdisplay = p4_height;
  vsync_start = p4_height;
  vsync_end = p4_height;
  vtotal = p4_height;
  clock = p4_width * p4_height * 50 / 1000;
  width_mm = 61;
  height_mm = 24;
  preferred = true;
}

-- The count that is returned and the modes that are added; `created` says whether `drm_mode_create`
-- returns a mode.
unfoldable pub p4_get_modes : Bool → Device → ℕ × List DisplayMode
p4_get_modes created p4 =
    if not p4.display_connected
    then (0, [])
    else (if not created then (0, []) else (1, only_mode ∷ []))

-- The result says whether it returns 0.
unfoldable pub p4_connector_dpms : Bool → (Device → Device) → DpmsMode → Device → Bool × Device
p4_connector_dpms cold others mode p4 = (true, p4_dpms_set cold others mode p4)

-- The code that `p4_atomic_check` returns: 0, that of `drm_atomic_helper_check`, or `-ENODEV`.
pub data CheckResult : Type 0 where
  accepted : CheckResult
  helper_error : ℕ → CheckResult
  enodev : CheckResult

-- The loop over the new CRTC states, by whether each is active.
unfoldable pub check_crtcs : List Bool → Device → CheckResult
check_crtcs [] p4 = accepted
check_crtcs (active ∷ crtcs) p4 =
    let rest = check_crtcs crtcs p4 in
    if not active then rest else (if not p4.display_connected then enodev else rest)

-- `helper` is the error of `drm_atomic_helper_check`, if any.
unfoldable pub p4_atomic_check : Option ℕ → List Bool → Device → CheckResult
p4_atomic_check none crtcs p4 = check_crtcs crtcs p4
p4_atomic_check (some ret) crtcs p4 = helper_error ret

abbrev pub any_active : List Bool → Bool
any_active [] = false
any_active (active ∷ crtcs) = active || any_active crtcs

-- What the check promises.
abbrev pub promised : Option ℕ → Bool → Bool → CheckResult
promised (some ret) enabling is_connected = helper_error ret
promised none enabling is_connected = if enabling && not is_connected then enodev else accepted

check_crtcs_lem :
    (crtcs : List Bool) (p4 : Device)
    → check_crtcs crtcs p4 ≡ promised none (any_active crtcs) p4.display_connected
unfolding check_crtcs
check_crtcs_lem [] p4 = refl
check_crtcs_lem (active ∷ crtcs) p4 = ground (arith, check_crtcs_lem crtcs p4)

-- The atomic check returns the error of the kernel's own check if there is one; otherwise it refuses
-- exactly the states that leave some CRTC active while the display is disconnected, wherever that CRTC
-- stands among them.
pub p4_atomic_check-promised :
    (helper : Option ℕ) (crtcs : List Bool) (p4 : Device)
    → p4_atomic_check helper crtcs p4 ≡ promised helper (any_active crtcs) p4.display_connected
unfolding p4_atomic_check
p4_atomic_check-promised none crtcs p4 = check_crtcs_lem crtcs p4
p4_atomic_check-promised (some ret) crtcs p4 = refl
