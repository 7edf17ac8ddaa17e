-- ===== src/Pipe/Update/Screen.antt =====
-- A full refresh shows the framebuffer, in both modes.
use p4_hmd.Base.{ℕ, ◌+◌, ◌-◌, ◌/◌, ◌<◌, ◌≡◌, refl, ◌∙◌, ap, arith}
use p4_hmd.Base.{Bool, true, false, Bool-cases, inl, inr, subst, ◌&&◌, if_ind, if◌then◌else◌, ltb}
use p4_hmd.Update.Word.{Buffer, IsBytes}
use p4_hmd.Driver.State.{Device, bit}
use p4_hmd.Rotation.Simd.{Neon}
use p4_hmd.Rotation.Scalar.Pixels.{pixel_msb, pixel_lsb}
use p4_hmd.Pipe.Clip.{
  Mono, Pixels, Rect, hw_width, p4_process_clip, p4_process_clip_native, p4_process_clip_rotated,
  align_native, align_rotated,
}
use p4_hmd.Pipe.Clip.Rotated.{within, p4_process_clip_rotated_pixel}
use p4_hmd.Pipe.Clip.Native.{p4_process_clip_native_pixel}
use p4_hmd.Pipe.Update.{Framebuffer, process_full}

-- The display's pixel for a pixel of the frame: the frame turned a quarter, or as it is. In native mode
-- the bytes are sent with the bit order reversed.
abbrev pub shown : Bool → Buffer → ℕ → ℕ → ℕ → ℕ
shown is_native buf w x y =
    if is_native
    then pixel_lsb buf (hw_width / 8) y x
    else pixel_msb buf (hw_width / 8) (w - 1 - x) y

-- The framebuffers of the two modes.
abbrev pub FitsMode : Bool → Framebuffer → Type 0
FitsMode true fb = (fb.width ≡ 280) × (fb.height ≡ 720)
FitsMode false fb = (fb.width ≡ 720) × (fb.height ≡ 280)

abbrev whole : Framebuffer → Rect
whole fb = record { x1 = 0; y1 = 0; x2 = fb.width; y2 = fb.height }

within_whole :
    (fb : Framebuffer) (x y : ℕ)
    → FitsMode false fb
    → x < fb.width
    → y < fb.height
    → within (align_rotated fb.width fb.height (whole fb)) x y ≡ true
unfolding align_rotated
within_whole fb x y fits hx hy = ground arith

shows_whole :
    (fb : Framebuffer) (x y : ℕ)
    → FitsMode true fb
    → x < fb.width
    → y < fb.height
    → let a = align_native fb.width fb.height (whole fb) in
      (ltb x (a.x2 - a.x1) && ltb y (a.y2 - a.y1) ≡ true) × (a.x1 + x ≡ x) × (a.y1 + y ≡ y)
unfolding align_native
shows_whole fb x y fits hx hy = (ground arith, ground arith, ground arith)

-- `p4_process_clip` by the mode.
module _ (mono : Mono) (neon : Neon) (have_neon may_use_simd : Bool) (px : Pixels) (w h : ℕ)
    (p4 : Device) (clip : Rect) where
  abbrev processed : Buffer
  processed = (p4_process_clip mono neon have_neon may_use_simd px w h p4 clip).dst_buf_0

  native_clip :
      p4.is_native ≡ true → processed ≡ p4_process_clip_native mono px w h clip p4.dst_buf_0
  unfolding p4_process_clip
  native_clip t =
      if_ind (λ (q : Device). q.dst_buf_0 ≡ p4_process_clip_native mono px w h clip p4.dst_buf_0)
        p4.is_native _ _ (λ u. refl) (λ f. cc)

  rotated_clip :
      p4.is_native ≡ false
      → processed
        ≡ (p4_process_clip_rotated mono neon have_neon may_use_simd px w h clip
            (p4.src_buf, p4.dst_buf_0)).1
  unfolding p4_process_clip
  rotated_clip f =
      if_ind
        (λ (q : Device).
          q.dst_buf_0
          ≡ (p4_process_clip_rotated mono neon have_neon may_use_simd px w h clip
              (p4.src_buf, p4.dst_buf_0)).1)
        p4.is_native _ _ (λ t. cc) (λ u. refl)

module _ (mono : Mono) (neon : Neon) (have_neon may_use_simd : Bool) where
  -- Where the framebuffer has the size of the mode and `src_buf` holds bytes: after a full refresh each
  -- of its pixels, lit or not, is the display's pixel for it in the accumulation buffer, in rotated mode
  -- and in native mode, with SIMD or without.
  pub process_full_pixel :
      (px : Pixels) (fb : Framebuffer) (p4 : Device) (x y : ℕ)
      → FitsMode p4.is_native fb
      → IsBytes p4.src_buf
      → x < fb.width
      → y < fb.height
      → shown p4.is_native
          (process_full mono neon have_neon may_use_simd px fb p4).dst_buf_0
          fb.width
          x
          y
        ≡ bit (px x y)
  unfolding process_full
  process_full_pixel px fb p4 x y fits bytes hx hy =
      let cleared = record p4 { dst_buf_0 = λ i. 0 } in
      let d =
        (p4_process_clip mono neon have_neon may_use_simd px fb.width fb.height cleared
          (whole fb)).dst_buf_0 in
      elim (Bool-cases p4.is_native) [
        | inl t ↦
            let size = subst (λ b. FitsMode b fb) t fits in
            let (inner, column, line) = shows_whole fb x y size hx hy in
            ap (λ (b : Bool). shown b d fb.width x y) t
            ∙ ap (λ (q : Buffer). pixel_lsb q (hw_width / 8) y x)
                (native_clip mono neon have_neon may_use_simd px fb.width fb.height cleared
                  (whole fb) t)
            ∙ p4_process_clip_native_pixel mono px fb.width fb.height (whole fb) (λ i. 0) x y
                (omega arith) (omega arith) (omega arith)
            ∙ rw (inner, column, line) refl
        | inr f ↦
            let size = subst (λ b. FitsMode b fb) f fits in
            let stride : hw_width / 8 ≡ fb.height / 8 = omega arith in
            ap (λ (b : Bool). shown b d fb.width x y) f
            ∙ ap (λ (q : ℕ). pixel_msb d q (fb.width - 1 - x) y) stride
            ∙ ap (λ (q : Buffer). pixel_msb q (fb.height / 8) (fb.width - 1 - x) y)
                (rotated_clip mono neon have_neon may_use_simd px fb.width fb.height cleared
                  (whole fb) f)
            ∙ p4_process_clip_rotated_pixel mono neon have_neon may_use_simd px fb.width fb.height
                (whole fb) p4.src_buf (λ i. 0) x y (omega arith) (omega arith) bytes hx hy
            ∙ rw (within_whole fb x y size hx hy) refl
      ]
