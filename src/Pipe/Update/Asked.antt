-- ===== src/Pipe/Update/Asked.antt =====
-- What a plane state asks for, and that `p4_update` does it.
use p4_hmd.Base.{ℕ, ◌≡◌, ◌≢◌, ◌⊎◌, inl, inr, refl, sym, ◌∙◌, ap, subst, arith, if◌then◌else◌}
use p4_hmd.Base.{Bool, true, false, not, xor, ◌||◌, Bool-cases, Option, none, some, List}
use p4_hmd.Driver.State.{Device, Rotation, rot_0, rot_90, rot_180, rot_270}
use p4_hmd.Driver.Power.{p4_set_upside_down}
use p4_hmd.Rotation.Simd.{Neon}
use p4_hmd.Pipe.Clip.{Mono, Pixels, Rect}
use p4_hmd.Pipe.Update.{
  PlaneRotation, rotate_0, rotate_90, rotate_180, rotate_270, other, PlaneState, new_rotation,
  hw_flip, native_rotation, same_rotation, new_fb, process_clips, process_full, update_frame,
}
use p4_hmd.Pipe.Update.Orientation.{
  asked, needs_full, set_rotation_lem, same_rotation_eq, update_frame_lem,
}

-- The device in a rotation: whether the framebuffer has the panel's orientation, and whether the picture
-- is turned around, beside the user's own flip.
abbrev pub oriented : Rotation → Bool → Bool → Device → Device
oriented rotation native flip p4 = record p4 {
  rotation = rotation;
  is_native = native;
  display_flags = record (p4.display_flags) { upside_down = xor flip p4.user_flip };
}

-- The rotations of a plane: at 0 and 180 degrees userspace draws 720x280, which is turned by 90 degrees;
-- at 90 and 270 it draws 280x720, which is not; 180 and 270 are turned around by the hardware. What is
-- none of them counts as 0.
abbrev pub as_asked : PlaneRotation → Device → Device
as_asked rotate_0 p4 = oriented rot_90 false false p4
as_asked rotate_90 p4 = oriented rot_0 true false p4
as_asked rotate_180 p4 = oriented rot_270 false true p4
as_asked rotate_270 p4 = oriented rot_180 true true p4
as_asked other p4 = oriented rot_90 false false p4

as_asked_lem : (r : PlaneRotation) (p4 : Device) → asked r p4 ≡ as_asked r p4
as_asked_lem rotate_0 p4 = refl
as_asked_lem rotate_90 p4 = refl
as_asked_lem rotate_180 p4 = refl
as_asked_lem rotate_270 p4 = refl
as_asked_lem other p4 = refl

-- A refresh was due, the rotation is another, or the framebuffer is.
abbrev pub Reason : Option ℕ → PlaneState → Device → Type 0
Reason old_fb state p4 =
    (p4.force_full ≡ true)
    ⊎ (((as_asked state.rotation p4).rotation ≢ p4.rotation) ⊎ (old_fb ≢ some state.fb.id))

-- The whole framebuffer is drawn if there is a reason, and the damage clips are if there is none.
abbrev pub Decides : Bool → Type 0 → Type 0
Decides true P = P
Decides false P = ¬ P

same_rotation_refl : (r : Rotation) → same_rotation r r ≡ true
same_rotation_refl rot_0 = refl
same_rotation_refl rot_90 = refl
same_rotation_refl rot_180 = refl
same_rotation_refl rot_270 = refl

new_fb_none : (id : ℕ) → new_fb (some id) id ≡ false
new_fb_none id = ground arith

other_fb : (old_fb : Option ℕ) (id : ℕ) → new_fb old_fb id ≡ true → old_fb ≢ some id
other_fb old_fb id t e =
    let f : new_fb old_fb id ≡ false = ap (λ (o : Option ℕ). new_fb o id) e ∙ new_fb_none id in
    absurd (cc)

same_fb : (old_fb : Option ℕ) (id : ℕ) → new_fb old_fb id ≡ false → old_fb ≡ some id
same_fb none id f = absurd (cc)
same_fb (some old) id f = let e : old ≡ id = ground arith in ap some e

asked_rotation : (r : PlaneRotation) (p4 : Device) → new_rotation r ≡ (as_asked r p4).rotation
asked_rotation r p4 = ap (λ (q : Device). q.rotation) (as_asked_lem r p4)

or_cases : (b c : Bool) → b || c ≡ true → (b ≡ true) ⊎ (c ≡ true)
or_cases true c h = inl refl
or_cases false c h = inr h

no_or : (b c : Bool) → b || c ≡ false → (b ≡ false) × (c ≡ false)
no_or true c h = absurd (cc)
no_or false c h = (refl, h)

module _ (old_fb : Option ℕ) (state : PlaneState) (p4 : Device) where
  abbrev changed : Bool
  changed = not (same_rotation p4.rotation (new_rotation state.rotation))

  turned : changed ≡ true → (as_asked state.rotation p4).rotation ≢ p4.rotation
  turned t e =
      let same : p4.rotation ≡ new_rotation state.rotation =
        sym e ∙ sym (asked_rotation state.rotation p4) in
      let f : same_rotation p4.rotation (new_rotation state.rotation) ≡ true =
        ap (same_rotation p4.rotation) (sym same) ∙ same_rotation_refl p4.rotation in
      absurd (ground (arith, t, f))

  not_turned : changed ≡ false → (as_asked state.rotation p4).rotation ≡ p4.rotation
  not_turned f =
      let t : same_rotation p4.rotation (new_rotation state.rotation) ≡ true = ground (arith, f) in
      sym (
        same_rotation_eq p4.rotation (new_rotation state.rotation) t
        ∙ asked_rotation state.rotation p4)

  needs_full-Decides : Decides (needs_full old_fb state p4) (Reason old_fb state p4)
  needs_full-Decides = elim (Bool-cases (needs_full old_fb state p4)) [
    | inl t ↦
        subst (λ (b : Bool). Decides b (Reason old_fb state p4)) (sym t)
          (elim (or_cases _ _ t) [
            | inr new ↦ inr (inr (other_fb old_fb state.fb.id new))
            | inl either ↦ elim (or_cases _ _ either) [
              | inl due ↦ inl due
              | inr turn ↦ inr (inl (turned turn))
            ]
          ])
    | inr f ↦
        subst (λ (b : Bool). Decides b (Reason old_fb state p4)) (sym f)
          (let (early, old) = no_or _ _ f in
            let (due, turn) = no_or p4.force_full changed early in
            λ why. elim why [
              | inl t ↦ absurd (cc)
              | inr (inl ne) ↦ absurd (ne (not_turned turn))
              | inr (inr ne) ↦ absurd (ne (same_fb old_fb state.fb.id old))
            ])
  ]

  module _ (mono : Mono) (neon : Neon) (have_neon may_use_simd : Bool) (px : Pixels) where
    -- The device that was asked for, with the whole framebuffer or its damage drawn.
    abbrev pub drawn : Bool → List Rect → Device
    drawn true clips =
        process_full mono neon have_neon may_use_simd px state.fb (as_asked state.rotation p4)
    drawn false clips =
        process_clips mono neon have_neon may_use_simd px state.fb clips
          (as_asked state.rotation p4)

    drawn_if :
        (b : Bool) (clips : List Rect)
        → (if b
            then process_full mono neon have_neon may_use_simd px state.fb
                (as_asked state.rotation p4)
            else process_clips mono neon have_neon may_use_simd px state.fb clips
                (as_asked state.rotation p4))
          ≡ drawn b clips
    drawn_if true clips = refl
    drawn_if false clips = refl

    -- In a device whose mode fits its rotation, `p4_update` turns the device as the plane state asks: by
    -- 90 degrees at the rotations 0 and 180, which draw 720x280, not at 90 and 270, which draw 280x720,
    -- and around at 180 and 270, against the user's flip. If a full refresh was due, the rotation changes
    -- or the framebuffer is not the old one, it draws the whole framebuffer, and a full refresh is due
    -- afterwards; otherwise it draws the damage clips, and none is. It sets `dirty`, and changes nothing
    -- else.
    pub update_frame-drawn :
        (clips : List Rect)
        → p4.is_native ≡ native_rotation p4.rotation
        → let p4' = update_frame mono neon have_neon may_use_simd px old_fb state clips p4 in
          (full : Bool) × Decides full (Reason old_fb state p4)
          × (p4' ≡ record (drawn full clips) { dirty = true })
          × (p4'.force_full ≡ full)
    unfolding update_frame p4_set_upside_down
    update_frame-drawn clips v =
        let full = needs_full old_fb state p4 in
        let draw = λ (t : Device).
          if t.force_full || changed || new_fb old_fb state.fb.id
          then process_full mono neon have_neon may_use_simd px state.fb t
          else process_clips mono neon have_neon may_use_simd px state.fb clips t in
        let (s, d, e) =
          update_frame_lem mono neon have_neon may_use_simd px old_fb state clips p4 v in
        let set =
          ap
            (λ (q : Device).
              record (draw (p4_set_upside_down q (xor (hw_flip state.rotation) p4.user_flip))) {
                dirty = true;
              })
            (set_rotation_lem (new_rotation state.rotation) p4 v) in
        let goal =
          ap
            (λ (q : Device).
              record (if full
                then process_full mono neon have_neon may_use_simd px state.fb q
                else process_clips mono neon have_neon may_use_simd px state.fb clips q) {
                  dirty = true;
                })
            (as_asked_lem state.rotation p4) in
        (
          full,
          needs_full-Decides,
          set ∙ goal ∙ ap (λ (q : Device). record q { dirty = true }) (drawn_if full clips),
          ap (λ (q : Device). q.force_full) e,
        )
