-- ===== src/Pipe/Update/Events.antt =====
-- The page-flip event of a commit.
use p4_hmd.Base.{ℕ, ◌+◌, ◌≡◌, arith, Bool, false, Option, none, some, List, not, ◌&&◌}
use p4_hmd.Driver.State.{Device, bit}
use p4_hmd.Rotation.Simd.{Neon}
use p4_hmd.Pipe.Clip.{Mono, Pixels, Rect}
use p4_hmd.Pipe.Update.{PlaneState, Crtc, complete_event, p4_update}

abbrev pub Completed : Bool → Crtc → Crtc → Type 0
Completed vblank_get crtc crtc' =
    (crtc'.event ≡ false)
    × (crtc'.armed ≡ crtc.armed + bit (crtc.event && vblank_get))
    × (crtc'.sent ≡ crtc.sent + bit (crtc.event && not vblank_get))

complete_event-Completed :
    (vblank_get : Bool) (crtc : Crtc) → Completed vblank_get crtc (complete_event vblank_get crtc)
unfolding complete_event
complete_event-Completed vblank_get crtc = ground arith

-- `p4_update` completes a pending event once: it is armed for the next vertical blank if the kernel
-- gives one, and sent at once if not. This holds also where nothing is drawn, since the sender is
-- disabled, the device is gone, or the framebuffer is not mapped. Without an event none is completed.
pub p4_update-Completed :
    (mono : Mono) (neon : Neon) (have_neon may_use_simd vblank_get entered : Bool)
    (mapped : Option Pixels) (old_fb : Option ℕ) (state : PlaneState) (clips : List Rect)
    (crtc : Crtc) (p4 : Device)
    → Completed vblank_get crtc
        (p4_update mono neon have_neon may_use_simd vblank_get entered mapped old_fb state clips
          (crtc, p4)).0
unfolding p4_update
p4_update-Completed mono neon hn simd get entered none old_fb state clips crtc p4 =
    complete_event-Completed get crtc
p4_update-Completed mono neon hn simd get entered (some px) old_fb state clips crtc p4 =
    complete_event-Completed get crtc
