-- ===== src/Pipe/Update.antt =====
-- `p4_update` of kmod/drm_p4_main.c: a new plane state goes into the accumulation buffer.
pub mod Screen
pub mod Orientation
pub mod Asked
pub mod Events
use p4_hmd.Base.{ℕ, suc, zero, ◌+◌, Bool, true, false, not, xor, ◌&&◌, ◌||◌, ◌==◌, if◌then◌else◌}
use p4_hmd.Base.{Option, none, some, List, [], ◌∷◌}
use p4_hmd.Driver.State.{Device, Rotation, rot_0, rot_90, rot_180, rot_270}
use p4_hmd.Driver.Power.{p4_set_upside_down}
use p4_hmd.Rotation.Simd.{Neon}
use p4_hmd.Pipe.Clip.{Mono, Pixels, Rect, p4_process_clip}

-- `state->rotation & DRM_MODE_ROTATE_MASK`; `other` is none of the four bits, or several.
pub data PlaneRotation : Type 0 where
  rotate_0 rotate_90 rotate_180 rotate_270 other : PlaneRotation

-- A `drm_framebuffer`, told from others by `id`.
pub record Framebuffer : Type 0 where
  pub id : ℕ
  pub width : ℕ
  pub height : ℕ

pub record PlaneState : Type 0 where
  pub fb : Framebuffer
  pub rotation : PlaneRotation

-- The CRTC's pending event, and how many were armed for the next vertical blank or sent at once.
pub record Crtc : Type 0 where
  pub event : Bool
  pub armed : ℕ
  pub sent : ℕ

-- The event, with the answer of `drm_crtc_vblank_get`.
unfoldable pub complete_event : Bool → Crtc → Crtc
complete_event vblank_get crtc =
    if crtc.event
    then (if vblank_get
        then record crtc { event = false; armed = suc crtc.armed }
        else record crtc { event = false; sent = suc crtc.sent })
    else crtc

abbrev pub new_rotation : PlaneRotation → Rotation
new_rotation rotate_0 = rot_90
new_rotation rotate_90 = rot_0
new_rotation rotate_180 = rot_270
new_rotation rotate_270 = rot_180
new_rotation other = rot_90

abbrev pub hw_flip : PlaneRotation → Bool
hw_flip rotate_0 = false
hw_flip rotate_90 = false
hw_flip rotate_180 = true
hw_flip rotate_270 = true
hw_flip other = false

-- `new_rotation == P4_ROT_0 || new_rotation == P4_ROT_180`
abbrev pub native_rotation : Rotation → Bool
native_rotation rot_0 = true
native_rotation rot_90 = false
native_rotation rot_180 = true
native_rotation rot_270 = false

abbrev pub same_rotation : Rotation → Rotation → Bool
same_rotation rot_0 rot_0 = true
same_rotation rot_90 rot_90 = true
same_rotation rot_180 rot_180 = true
same_rotation rot_270 rot_270 = true
same_rotation _ _ = false

unfoldable pub set_rotation : Rotation → Device → Device
set_rotation rotation p4 =
    if same_rotation p4.rotation rotation
    then p4
    else record p4 { rotation = rotation; is_native = native_rotation rotation }

-- `!old->fb || old->fb != state->fb`
abbrev pub new_fb : Option ℕ → ℕ → Bool
new_fb none id = true
new_fb (some old) id = not (old == id)

module _ (mono : Mono) (neon : Neon) (have_neon may_use_simd : Bool) where
  -- The loop over the damage clips.
  unfoldable pub process_clips : Pixels → Framebuffer → List Rect → Device → Device
  process_clips px fb [] p4 = p4
  process_clips px fb (clip ∷ clips) p4 =
      process_clips px fb clips
        (p4_process_clip mono neon have_neon may_use_simd px fb.width fb.height p4 clip)

  -- The whole frame into a cleared buffer.
  unfoldable pub process_full : Pixels → Framebuffer → Device → Device
  process_full px fb p4 =
      let full : Rect = record { x1 = 0; y1 = 0; x2 = fb.width; y2 = fb.height } in
      let cleared = record p4 { dst_buf_0 = λ i. 0 } in
      record (p4_process_clip mono neon have_neon may_use_simd px fb.width fb.height cleared full) {
        force_full = true;
      }

  -- What `p4_update` does for a mapped framebuffer. `old_fb` is that of the old state, `clips` are
  -- the damage clips that the kernel's iterator yields.
  unfoldable pub update_frame : Pixels → Option ℕ → PlaneState → List Rect → Device → Device
  update_frame px old_fb state clips p4 =
      let rotation = new_rotation state.rotation in
      let changed = not (same_rotation p4.rotation rotation) in
      let p4' =
        p4_set_upside_down (set_rotation rotation p4) (xor (hw_flip state.rotation) p4.user_flip) in
      let drawn =
        (if p4'.force_full || changed || new_fb old_fb state.fb.id
          then process_full px state.fb p4'
          else process_clips px state.fb clips p4') in
      record drawn { dirty = true }

  -- `entered` is the answer of `drm_dev_enter`, `mapped` the pixels behind `dma_obj->vaddr`.
  unfoldable pub p4_update :
      Bool
      → Bool
      → Option Pixels
      → Option ℕ
      → PlaneState
      → List Rect
      → Crtc × Device
      → Crtc × Device
  p4_update vblank_get entered none old_fb state clips (crtc, p4) =
      (complete_event vblank_get crtc, p4)
  p4_update vblank_get entered (some px) old_fb state clips (crtc, p4) = (
    complete_event vblank_get crtc,
    if p4.enabled && entered then update_frame px old_fb state clips p4 else p4,
  )
