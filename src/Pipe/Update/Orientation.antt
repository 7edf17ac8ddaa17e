-- ===== src/Pipe/Update/Orientation.antt =====
-- The rotation, the mode and the flip of the display agree, whichever path sets them.
use p4_hmd.Base.{
  ◌≡◌, refl, sym, Bool, true, false, xor, ◌&&◌, ◌||◌, not, if_ind, if◌then◌else◌, ap, ◌∙◌,
}
use p4_hmd.Base.{Option, none, some, List, [], ◌∷◌, ℕ, subst}
use p4_hmd.Driver.State.{Device, Rotation, rot_0, rot_90, rot_180, rot_270}
use p4_hmd.Driver.Power.{p4_set_upside_down}
use p4_hmd.Driver.Dpms.{drm_flip, user_flip_store}
use p4_hmd.Update.Word.{Buffer}
use p4_hmd.Rotation.Simd.{Neon}
use p4_hmd.Pipe.Clip.{Mono, Pixels, Rect, p4_process_clip}
use p4_hmd.Pipe.Update.{
  PlaneRotation, rotate_0, rotate_90, rotate_180, rotate_270, other, PlaneState, Framebuffer, Crtc,
  new_rotation, hw_flip, native_rotation, same_rotation, set_rotation, new_fb, process_clips,
  process_full, update_frame, p4_update,
}

-- The mode follows from the rotation, and the flip of the display from the rotation and the user's.
pub record IsOriented (p4 : Device) : Type 0 where
  pub mode : p4.is_native ≡ native_rotation p4.rotation
  pub flip : p4.display_flags.upside_down ≡ xor (drm_flip p4.rotation) p4.user_flip

pub drm_flip-new_rotation : (r : PlaneRotation) → drm_flip (new_rotation r) ≡ hw_flip r
drm_flip-new_rotation rotate_0 = refl
drm_flip-new_rotation rotate_90 = refl
drm_flip-new_rotation rotate_180 = refl
drm_flip-new_rotation rotate_270 = refl
drm_flip-new_rotation other = refl

pub same_rotation_eq : (a b : Rotation) → same_rotation a b ≡ true → a ≡ b
same_rotation_eq rot_0 rot_0 h = refl
same_rotation_eq rot_0 rot_90 h = cc
same_rotation_eq rot_0 rot_180 h = cc
same_rotation_eq rot_0 rot_270 h = cc
same_rotation_eq rot_90 rot_0 h = cc
same_rotation_eq rot_90 rot_90 h = refl
same_rotation_eq rot_90 rot_180 h = cc
same_rotation_eq rot_90 rot_270 h = cc
same_rotation_eq rot_180 rot_0 h = cc
same_rotation_eq rot_180 rot_90 h = cc
same_rotation_eq rot_180 rot_180 h = refl
same_rotation_eq rot_180 rot_270 h = cc
same_rotation_eq rot_270 rot_0 h = cc
same_rotation_eq rot_270 rot_90 h = cc
same_rotation_eq rot_270 rot_180 h = cc
same_rotation_eq rot_270 rot_270 h = refl

-- In a device whose mode fits its rotation, the test for a change saves two assignments only.
pub set_rotation_lem :
    (r : Rotation) (p4 : Device)
    → p4.is_native ≡ native_rotation p4.rotation
    → set_rotation r p4 ≡ record p4 { rotation = r; is_native = native_rotation r }
unfolding set_rotation
set_rotation_lem r p4 v =
    if_ind (λ (q : Device). q ≡ record p4 { rotation = r; is_native = native_rotation r })
      (same_rotation p4.rotation r) _ _
      (λ t.
        let e = same_rotation_eq p4.rotation r t in
        let m : p4.is_native ≡ native_rotation r = v ∙ ap native_rotation e in
        λ i. record p4 { rotation = e i; is_native = m i })
      (λ f. refl)

-- Nothing but the two buffers is different.
abbrev Redrawn : Device → Device → Type 0
Redrawn p4 p4' = (s : Buffer) × (d : Buffer) × (p4' ≡ record p4 { src_buf = s; dst_buf_0 = d })

module _ (mono : Mono) (neon : Neon) (have_neon may_use_simd : Bool) (px : Pixels) where
  p4_process_clip-Redrawn :
      (w h : ℕ) (p4 : Device) (clip : Rect)
      → Redrawn p4 (p4_process_clip mono neon have_neon may_use_simd px w h p4 clip)
  unfolding p4_process_clip
  p4_process_clip-Redrawn w h p4 clip =
      if_ind (Redrawn p4) p4.is_native _ _ (λ t. (p4.src_buf, _, refl)) (λ f. (_, _, refl))

  process_clips-Redrawn :
      (fb : Framebuffer) (clips : List Rect) (p4 : Device)
      → Redrawn p4 (process_clips mono neon have_neon may_use_simd px fb clips p4)
  unfolding process_clips
  process_clips-Redrawn fb [] p4 = (p4.src_buf, p4.dst_buf_0, refl)
  process_clips-Redrawn fb (clip ∷ clips) p4 =
      let p4' = p4_process_clip mono neon have_neon may_use_simd px fb.width fb.height p4 clip in
      let (s, d, e) = p4_process_clip-Redrawn fb.width fb.height p4 clip in
      let (s', d', e') = process_clips-Redrawn fb clips p4' in
      (s', d', e' ∙ ap (λ (q : Device). record q { src_buf = s'; dst_buf_0 = d' }) e)

  pub process_full-Redrawn :
      (fb : Framebuffer) (p4 : Device)
      → (s : Buffer) × (d : Buffer) × (process_full mono neon have_neon may_use_simd px fb p4
          ≡ record p4 { src_buf = s; dst_buf_0 = d; force_full = true })
  unfolding process_full
  process_full-Redrawn fb p4 =
      let full : Rect = record { x1 = 0; y1 = 0; x2 = fb.width; y2 = fb.height } in
      let cleared = record p4 { dst_buf_0 = λ i. 0 } in
      let (s, d, e) = p4_process_clip-Redrawn fb.width fb.height cleared full in
      (s, d, ap (λ (q : Device). record q { force_full = true }) e)

or_false : (b c : Bool) → b || c ≡ false → b ≡ false
or_false true c h = cc
or_false false c h = refl

-- The device with what a plane state asks for, before anything is drawn.
abbrev pub asked : PlaneRotation → Device → Device
asked r p4 = record p4 {
  rotation = new_rotation r;
  is_native = native_rotation (new_rotation r);
  display_flags = record (p4.display_flags) { upside_down = xor (hw_flip r) p4.user_flip };
}

abbrev pub needs_full : Option ℕ → PlaneState → Device → Bool
needs_full old_fb state p4 =
    p4.force_full
    || not (same_rotation p4.rotation (new_rotation state.rotation))
    || new_fb old_fb state.fb.id

module _ (mono : Mono) (neon : Neon) (have_neon may_use_simd : Bool) (px : Pixels) where
  -- A full refresh draws the whole frame in the new orientation.
  pub update_frame_full :
      (old_fb : Option ℕ) (state : PlaneState) (clips : List Rect) (p4 : Device)
      → p4.is_native ≡ native_rotation p4.rotation
      → needs_full old_fb state p4 ≡ true
      → update_frame mono neon have_neon may_use_simd px old_fb state clips p4
        ≡ record (process_full mono neon have_neon may_use_simd px state.fb
            (asked state.rotation p4)) { dirty = true }
  unfolding update_frame p4_set_upside_down
  update_frame_full old_fb state clips p4 v t =
      let r = new_rotation state.rotation in
      let goal = asked state.rotation p4 in
      let changed = not (same_rotation p4.rotation r) in
      let draw = λ (t : Device).
        if t.force_full || changed || new_fb old_fb state.fb.id
        then process_full mono neon have_neon may_use_simd px state.fb t
        else process_clips mono neon have_neon may_use_simd px state.fb clips t in
      ap
        (λ (q : Device).
          record (draw (p4_set_upside_down q (xor (hw_flip state.rotation) p4.user_flip))) {
            dirty = true;
          })
        (set_rotation_lem r p4 v)
      ∙ ap
          (λ (b : Bool).
            record (if b
              then process_full mono neon have_neon may_use_simd px state.fb goal
              else process_clips mono neon have_neon may_use_simd px state.fb clips goal) {
                dirty = true;
              })
          t

  -- In a device whose mode fits its rotation, `p4_update` sets the rotation, its mode and the flip as the
  -- plane state asks, sets `dirty`, sets `force_full` exactly if it was set, the rotation changes or the
  -- framebuffer is new, draws into `src_buf` and the accumulation buffer, and changes nothing else.
  pub update_frame_lem :
      (old_fb : Option ℕ) (state : PlaneState) (clips : List Rect) (p4 : Device)
      → p4.is_native ≡ native_rotation p4.rotation
      → (s : Buffer) × (d : Buffer) × (update_frame mono neon have_neon may_use_simd px old_fb state
            clips p4
          ≡ record (asked state.rotation p4) {
            src_buf = s;
            dst_buf_0 = d;
            dirty = true;
            force_full = needs_full old_fb state p4;
          })
  unfolding update_frame p4_set_upside_down
  update_frame_lem old_fb state clips p4 v =
      let r = new_rotation state.rotation in
      let goal = asked state.rotation p4 in
      let full = needs_full old_fb state p4 in
      let changed = not (same_rotation p4.rotation r) in
      let draw = λ (t : Device).
        if t.force_full || changed || new_fb old_fb state.fb.id
        then process_full mono neon have_neon may_use_simd px state.fb t
        else process_clips mono neon have_neon may_use_simd px state.fb clips t in
      let turned =
        ap
          (λ (q : Device).
            record (draw (p4_set_upside_down q (xor (hw_flip state.rotation) p4.user_flip))) {
              dirty = true;
            })
          (set_rotation_lem r p4 v) in
      let (s, d, e) =
        if_ind
          (λ (q : Device).
            (s : Buffer) × (d : Buffer) × (q
              ≡ record goal { src_buf = s; dst_buf_0 = d; force_full = full }))
          full (process_full mono neon have_neon may_use_simd px state.fb goal)
          (process_clips mono neon have_neon may_use_simd px state.fb clips goal)
          (λ t.
            let (s, d, e) =
              process_full-Redrawn mono neon have_neon may_use_simd px state.fb goal in
            (s, d, e ∙ (λ i. record goal { src_buf = s; dst_buf_0 = d; force_full = sym t i })))
          (λ f.
            let (s, d, e) =
              process_clips-Redrawn mono neon have_neon may_use_simd px state.fb clips goal in
            let kept : p4.force_full ≡ full =
              or_false p4.force_full changed (or_false _ _ f) ∙ sym f in
            (s, d, e ∙ (λ i. record goal { src_buf = s; dst_buf_0 = d; force_full = kept i }))) in
      (s, d, turned ∙ ap (λ (q : Device). record q { dirty = true }) e)

  update_frame-IsOriented :
      (old_fb : Option ℕ) (state : PlaneState) (clips : List Rect) (p4 : Device)
      → IsOriented p4
      → IsOriented (update_frame mono neon have_neon may_use_simd px old_fb state clips p4)
  update_frame-IsOriented old_fb state clips p4 v =
      let (s, d, e) = update_frame_lem old_fb state clips p4 v.mode in
      let flip = drm_flip-new_rotation state.rotation in
      subst IsOriented (sym e)
        (record { mode = refl; flip = ap (λ (b : Bool). xor b p4.user_flip) (sym flip) })

-- In a device whose mode fits its rotation, and whose flip is the rotation's, turned around if the user
-- flips it, `p4_update` keeps both so, for every rotation of the plane and on every path.
pub p4_update-IsOriented :
    (mono : Mono) (neon : Neon) (have_neon may_use_simd vblank_get entered : Bool)
    (mapped : Option Pixels) (old_fb : Option ℕ) (state : PlaneState) (clips : List Rect)
    (crtc : Crtc) (p4 : Device)
    → IsOriented p4
    → IsOriented
        (p4_update mono neon have_neon may_use_simd vblank_get entered mapped old_fb state clips
          (crtc, p4)).1
unfolding p4_update
p4_update-IsOriented mono neon hn simd get entered none old_fb state clips crtc p4 v = v
p4_update-IsOriented mono neon hn simd get entered (some px) old_fb state clips crtc p4 v =
    if_ind IsOriented (p4.enabled && entered) _ _
      (λ t. update_frame-IsOriented mono neon hn simd px old_fb state clips p4 v) (λ f. v)

pub user_flip_store-IsOriented :
    (new_flip : Bool) (p4 : Device) → IsOriented p4 → IsOriented (user_flip_store new_flip p4)
unfolding user_flip_store p4_set_upside_down
user_flip_store-IsOriented new_flip p4 v =
    if_ind IsOriented (xor p4.user_flip new_flip) _ _ (λ t. record { mode = v.mode; flip = refl })
      (λ f. v)
