-- ===== src/Pipe/Run.antt =====
-- The device from its probe on, as a relation between its states: interrupts, timer and works, the
-- rounds of the drainer, and the calls of DRM, of the backlight and of sysfs, in any order. Where a call
-- waits for other threads, what they do meanwhile is a run itself.
pub mod Invariant
pub mod Round
pub mod Lifecycle
pub mod Redraw
pub mod Start
pub mod Kept
use p4_hmd.Base.{ℕ, Bool, Option, List}
use p4_hmd.Driver.State.{Device, Clock, Handshake}
use p4_hmd.Driver.Link.Laws.{LinkStep}
use p4_hmd.Driver.Drainer.{ChunkEnv, drainer_round}
use p4_hmd.Driver.Lifecycle.{p4_sender_signal_vsync}
use p4_hmd.Driver.Dpms.{
  DpmsMode, p4_dpms_set, bl_update, user_flip_store, p4_enable, p4_disable, p4_suspend, p4_resume,
}
use p4_hmd.Rotation.Simd.{Neon}
use p4_hmd.Pipe.Clip.{Mono, Pixels, Rect}
use p4_hmd.Pipe.Update.{PlaneState, Crtc, p4_update}

pub data Run (mono : Mono) (neon : Neon) : Device → Device → Type 0 where
  stay : (s : Device) → Run mono neon s s
  then_do : (s t u : Device) → Run mono neon s t → Run mono neon t u → Run mono neon s u
  link : (s t : Device) → LinkStep s t → Run mono neon s t
  vsync : (hw : Bool) (s : Device) → Run mono neon s (p4_sender_signal_vsync hw s)
  round :
      (ready : Bool) (env : ℕ → ChunkEnv) (s : Device) → Run mono neon s (drainer_round ready env s)
  dpms :
      (cold : Bool) (others : Device → Device) (mode : DpmsMode) (s : Device)
      → ((t : Device) → Run mono neon t (others t))
      → Run mono neon s (p4_dpms_set cold others mode s)
  brightness : (n : ℕ) (s : Device) → Run mono neon s (bl_update n s)
  flip : (new_flip : Bool) (s : Device) → Run mono neon s (user_flip_store new_flip s)
  enable :
      (vblank_on : Device → Device) (s : Device)
      → ((t : Device) → Run mono neon t (vblank_on t))
      → Run mono neon s (p4_enable vblank_on s)
  disable :
      (vblank_off : Device → Device) (s : Device)
      → ((t : Device) → Run mono neon t (vblank_off t))
      → Run mono neon s (p4_disable vblank_off s)
  update :
      (have_neon may_use_simd vblank_get entered : Bool) (mapped : Option Pixels)
      (old_fb : Option ℕ) (state : PlaneState) (clips : List Rect) (crtc : Crtc) (s : Device)
      → Run mono neon s
          (p4_update mono neon have_neon may_use_simd vblank_get entered mapped old_fb state clips
            (crtc, s)).1
  suspend :
      (drm_suspend : Device → Bool × Device) (others stopping : Device → Device) (s : Device)
      → ((t : Device) → Run mono neon t (drm_suspend t).1)
      → ((t : Device) → Run mono neon t (others t))
      → ((t : Device) → Run mono neon t (stopping t))
      → Run mono neon s (p4_suspend drm_suspend others stopping s).1
  resume :
      (drm_resume : Device → Bool × Device) (clock : Clock) (now after : ℕ) (h : Handshake)
      (cold started ready : Bool) (s : Device)
      → ((t : Device) → Run mono neon t (drm_resume t).1)
      → Run mono neon s (p4_resume drm_resume clock now after h cold started ready s).1
