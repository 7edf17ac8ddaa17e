-- ===== src/Pipe/Run/Redraw.antt =====
-- Drawing keeps the invariant.
use p4_hmd.Base.{ℕ, refl, sym, ap, subst, arith, Bool, not, ◌&&◌, ◌||◌}
use p4_hmd.Base.{if_ind, List, [], ◌∷◌, Option, none, some, xor}
use p4_hmd.Update.Word.{IsBytes}
use p4_hmd.Driver.State.{Device}
use p4_hmd.Driver.Power.{p4_set_upside_down}
use p4_hmd.Rotation.Simd.{Neon}
use p4_hmd.Pipe.Clip.{Mono, Pixels, Rect}
use p4_hmd.Pipe.Clip.Bytes.{p4_process_clip-IsBytes}
use p4_hmd.Pipe.Update.{
  PlaneState, Framebuffer, Crtc, p4_update, update_frame, process_clips, process_full, set_rotation,
  new_rotation, hw_flip, new_fb, same_rotation, native_rotation,
}
use p4_hmd.Pipe.Update.Orientation.{update_frame_lem, drm_flip-new_rotation}
use p4_hmd.Pipe.Run.Invariant.{IsValid}

module _ (mono : Mono) (neon : Neon) (have_neon may_use_simd : Bool) (px : Pixels) where
  process_clips-IsBytes :
      (fb : Framebuffer) (clips : List Rect) (s : Device)
      → IsBytes s.dst_buf_0
      → IsBytes (process_clips mono neon have_neon may_use_simd px fb clips s).dst_buf_0
  unfolding process_clips
  process_clips-IsBytes fb [] s h = h
  process_clips-IsBytes fb (c ∷ cs) s h =
      process_clips-IsBytes fb cs _
        (p4_process_clip-IsBytes mono neon have_neon may_use_simd px fb.width fb.height s c h)

  process_full-IsBytes :
      (fb : Framebuffer) (s : Device)
      → IsBytes (process_full mono neon have_neon may_use_simd px fb s).dst_buf_0
  unfolding process_full
  process_full-IsBytes fb s =
      p4_process_clip-IsBytes mono neon have_neon may_use_simd px fb.width fb.height
        (record s { dst_buf_0 = λ i. 0 }) _ (λ j. omega arith)

  update_frame-IsBytes :
      (old_fb : Option ℕ) (state : PlaneState) (clips : List Rect) (s : Device)
      → IsBytes s.dst_buf_0
      → IsBytes (update_frame mono neon have_neon may_use_simd px old_fb state clips s).dst_buf_0
  unfolding update_frame set_rotation p4_set_upside_down
  update_frame-IsBytes old_fb state clips s h =
      let r = new_rotation state.rotation in
      let asked' =
        p4_set_upside_down (set_rotation r s) (xor (hw_flip state.rotation) s.user_flip) in
      if_ind (λ (q : Device). IsBytes q.dst_buf_0)
        (asked'.force_full || not (same_rotation s.rotation r) || new_fb old_fb state.fb.id)
        (process_full mono neon have_neon may_use_simd px state.fb asked')
        (process_clips mono neon have_neon may_use_simd px state.fb clips asked')
        (λ _. process_full-IsBytes state.fb asked')
        (λ _. process_clips-IsBytes state.fb clips asked' (
          if_ind (λ (q : Device). IsBytes q.dst_buf_0) (same_rotation s.rotation r) s
            (record s { rotation = r; is_native = native_rotation r }) (λ _. h) (λ _. h)))

  update_frame-IsValid :
      (old_fb : Option ℕ) (state : PlaneState) (clips : List Rect) (s : Device)
      → IsValid s
      → IsValid (update_frame mono neon have_neon may_use_simd px old_fb state clips s)
  update_frame-IsValid old_fb state clips s h =
      let (src, d, e) =
        update_frame_lem mono neon have_neon may_use_simd px old_fb state clips s h.mode in
      let drawn = update_frame-IsBytes old_fb state clips s h.frame in
      subst IsValid (sym e) (record {
        exclusive = h.exclusive;
        mode = refl;
        flip = ap (λ (b : Bool). xor b s.user_flip) (sym (drm_flip-new_rotation state.rotation));
        target = h.target;
        refresh = λ off.
            ap
              (λ (b : Bool).
                b
                || not (same_rotation s.rotation (new_rotation state.rotation))
                || new_fb old_fb state.fb.id)
              (h.refresh off);
        room = h.room;
        placed = h.placed;
        frame = subst (λ (q : Device). IsBytes q.dst_buf_0) e drawn;
        candidate = h.candidate;
        reference = h.reference;
      })

pub p4_update-IsValid :
    (mono : Mono) (neon : Neon) (have_neon may_use_simd vblank_get entered : Bool)
    (mapped : Option Pixels) (old_fb : Option ℕ) (state : PlaneState) (clips : List Rect)
    (crtc : Crtc) (s : Device)
    → IsValid s
    → IsValid
        (p4_update mono neon have_neon may_use_simd vblank_get entered mapped old_fb state clips
          (crtc, s)).1
unfolding p4_update
p4_update-IsValid mono neon hn simd get entered none old_fb state clips crtc s h = h
p4_update-IsValid mono neon hn simd get entered (some px) old_fb state clips crtc s h =
    if_ind IsValid (s.enabled && entered) _ _
      (λ _. update_frame-IsValid mono neon hn simd px old_fb state clips s h) (λ _. h)
