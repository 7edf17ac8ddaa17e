-- ===== src/Pipe/Clip/Native.antt =====
-- A damage clip in native mode: which pixels of the display it sets, and to what.
use p4_hmd.Base.{ℕ, ◌+◌, ◌-◌, ◌*◌, ◌/◌, ◌%◌, ◌<◌, ◌≤◌, ◌≡◌, refl, ◌∙◌, ap, arith}
use p4_hmd.Base.{Bool, false, Bool-cases, if◌then◌else◌, ltb, ◌&&◌, ◌⊎◌, inl, inr, some}
use p4_hmd.Base.BitAt.{bit_at}
use p4_hmd.Update.Word.{Buffer}
use p4_hmd.Driver.State.{bit}
use p4_hmd.Rotation.Scalar.Pixels.{pixel_lsb}
use p4_hmd.Pipe.Clip.{
  Mono, Pixels, Rect, hw_width, align_native, line_bytes, p4_process_clip_native,
}

native_corners :
    (w h : ℕ) (clip : Rect)
    → w % 8 ≡ 0
    → w ≤ 280
    → let a = align_native w h clip in ((a.x2 - a.x1) % 8 ≡ 0) × (a.x2 - a.x1 ≤ 280)
unfolding align_native
native_corners w h clip wd hw = ground arith

module _ (mono : Mono) (px : Pixels) (dst : Buffer) (a : Rect) (whole : (a.x2 - a.x1) % 8 ≡ 0)
    (fits : a.x2 - a.x1 ≤ 280) where
  abbrev shows : ℕ → ℕ → Bool
  shows x y = ltb x (a.x2 - a.x1) && ltb y (a.y2 - a.y1)

  abbrev drawn : Buffer
  drawn = mono.to_mono dst (some (hw_width / 8)) px a

  missed : (x y : ℕ) → shows x y ≡ false → (a.y2 - a.y1 ≤ y) ⊎ (line_bytes a ≤ x / 8)
  missed x y f = elim (Bool-cases (ltb x (a.x2 - a.x1))) [
    | inl t ↦ inl (ground arith)
    | inr n ↦ inr (ground arith)
  ]

  drawn_pixel :
      (x y : ℕ)
      → x < 280
      → pixel_lsb drawn (hw_width / 8) y x
        ≡ (if shows x y then bit (px (a.x1 + x) (a.y1 + y)) else pixel_lsb dst (hw_width / 8) y x)
  drawn_pixel x y lx = elim (Bool-cases (shows x y)) [
    | inl t ↦
        let parts : 8 * (x / 8) + x % 8 ≡ x = omega arith in
        let inner : (x < a.x2 - a.x1) × (y < a.y2 - a.y1) = ground arith in
        mono.to_mono_pixel dst (some 35) px a y (x / 8) (x % 8) (omega arith) (omega arith)
          (omega arith) (omega arith)
        ∙ ap (λ (q : ℕ). bit (px (a.x1 + q) (a.y1 + y))) parts
        ∙ rw t refl
    | inr f ↦
        ap (λ (q : ℕ). bit_at q (x % 8))
          (mono.to_mono_outside dst (some 35) px a y (x / 8) (omega arith) (omega arith)
            (missed x y f))
        ∙ rw f refl
  ]

module _ (mono : Mono) where
  -- Where the frame's width is a multiple of 8 and at most that of the display: after a clip, the
  -- display's pixels from its top left corner on are the framebuffer's pixels from the aligned clip's
  -- corner on, as many as the aligned clip has, and all others are as they were. So the clip shows at
  -- its place only if the aligned clip starts at the corner of the frame.
  pub p4_process_clip_native_pixel :
      (px : Pixels) (w h : ℕ) (clip : Rect) (dst : Buffer) (x y : ℕ)
      → w % 8 ≡ 0
      → w ≤ 280
      → x < 280
      → let a = align_native w h clip in
        pixel_lsb (p4_process_clip_native mono px w h clip dst) (hw_width / 8) y x ≡ (
          if ltb x (a.x2 - a.x1) && ltb y (a.y2 - a.y1)
          then bit (px (a.x1 + x) (a.y1 + y))
          else pixel_lsb dst (hw_width / 8) y x)
  unfolding p4_process_clip_native
  p4_process_clip_native_pixel px w h clip dst x y wd hw lx =
      let (whole, fits) = native_corners w h clip wd hw in
      drawn_pixel mono px dst (align_native w h clip) whole fits x y lx
