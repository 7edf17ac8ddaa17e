-- ===== src/Pipe/Clip/Rotated.antt =====
-- A damage clip in rotated mode: which pixels of the display it sets, and to what.
use native.Mathlib.Nat.{add-mul}
use native.Mathlib.Decide.{dec_le}
use p4_hmd.Base.{ℕ, ◌+◌, ◌-◌, ◌*◌, ◌/◌, ◌%◌, ◌<◌, ◌≤◌, ◌≡◌, refl, ◌∙◌, ap, arith}
use p4_hmd.Base.{Bool, true, false, Bool-cases, if_ind, if◌then◌else◌, ltb, leb, ◌&&◌, ◌||◌}
use p4_hmd.Base.{◌⊎◌, inl, inr, none}
use p4_hmd.Base.BitAt.{bit_at}
use p4_hmd.Update.Word.{Buffer, IsBytes}
use p4_hmd.Driver.State.{bit}
use p4_hmd.Rotation.Scalar.{rotate_ccw_scalar}
use p4_hmd.Rotation.Scalar.Pixels.{pixel_msb, pixel_lsb}
use p4_hmd.Rotation.Scalar.Pixels.{rotate_ccw_scalar_pixel, rotate_ccw_scalar_outside}
use p4_hmd.Rotation.Simd.{Neon}
use p4_hmd.Rotation.Simd.Equal.{rotate_blocks_simd}
use p4_hmd.Pipe.Clip.{Mono, Pixels, Rect, align_rotated, before, line_bytes}
use p4_hmd.Pipe.Clip.{p4_process_clip_rotated}

abbrev pub within : Rect → ℕ → ℕ → Bool
within r x y = leb r.x1 x && ltb x r.x2 && leb r.y1 y && ltb y r.y2

-- Where the frame's sides are multiples of 8 and the clip is not empty and lies in the frame: the
-- aligned clip has corners at multiples of 8, lies in the frame, contains the clip, and is less than 8
-- pixels wider at each side.
pub align_rotated_bounds :
    (w h : ℕ) (clip : Rect)
    → w % 8 ≡ 0
    → h % 8 ≡ 0
    → clip.x1 < clip.x2
    → clip.y1 < clip.y2
    → clip.x2 ≤ w
    → clip.y2 ≤ h
    → let a = align_rotated w h clip in
      (a.x1 % 8 ≡ 0)
      × (a.y1 % 8 ≡ 0)
      × (a.x2 % 8 ≡ 0)
      × (a.y2 % 8 ≡ 0)
      × (a.x2 ≤ w)
      × (a.y2 ≤ h)
      × (a.x1 ≤ clip.x1)
      × (a.y1 ≤ clip.y1)
      × (clip.x2 ≤ a.x2)
      × (clip.y2 ≤ a.y2)
      × (clip.x1 < a.x1 + 8)
      × (clip.y1 < a.y1 + 8)
      × (a.x2 < clip.x2 + 8)
      × (a.y2 < clip.y2 + 8)
unfolding align_rotated
align_rotated_bounds w h clip wd hd hx hy hw hh = ground arith

aligned_corners :
    (w h : ℕ) (clip : Rect)
    → w % 8 ≡ 0
    → h % 8 ≡ 0
    → let a = align_rotated w h clip in
      (a.x1 ≡ a.x1 / 8 * 8)
      × (a.x2 ≡ a.x2 / 8 * 8)
      × (a.y1 ≡ a.y1 / 8 * 8)
      × (a.y2 ≡ a.y2 / 8 * 8)
      × (a.x2 ≤ w)
      × (a.y2 ≤ h)
unfolding align_rotated
aligned_corners w h clip wd hd = ground arith

empty_sides :
    (a : Rect)
    → a.x1 ≡ a.x1 / 8 * 8
    → a.x2 ≡ a.x2 / 8 * 8
    → a.y1 ≡ a.y1 / 8 * 8
    → a.y2 ≡ a.y2 / 8 * 8
    → leb (a.x2 / 8) (a.x1 / 8) || leb (a.y2 / 8) (a.y1 / 8) ≡ true
    → (a.x2 ≤ a.x1) ⊎ (a.y2 ≤ a.y1)
empty_sides a left right top bottom t = elim (dec_le a.x2 a.x1) [
  | yes p ↦ inl p
  | no p ↦ inr (ground arith)
]

-- A converted clip, read through the pointer that is set back.
module _ (mono : Mono) (src : Buffer) (px : Pixels) (a : Rect) (bx1 bx2 by1 by2 : ℕ)
    (left : a.x1 ≡ bx1 * 8) (right : a.x2 ≡ bx2 * 8) (top : a.y1 ≡ by1 * 8)
    (bottom : a.y2 ≡ by2 * 8) where
  abbrev converted : Buffer
  converted = mono.to_mono src none px a

  abbrev set_back : Buffer
  set_back = before (before converted (by1 * 8 * (bx2 - bx1))) bx1

  read_place :
      (x y : ℕ)
      → bx1 * 8 ≤ x
      → by1 * 8 ≤ y
      → y * (bx2 - bx1) + x / 8 - bx1 - by1 * 8 * (bx2 - bx1)
        ≡ (y - by1 * 8) * line_bytes a + (x / 8 - bx1)
  read_place x y hx hy =
      let width : line_bytes a ≡ bx2 - bx1 = omega arith in
      let parts : y ≡ by1 * 8 + (y - by1 * 8) = omega arith in
      let rows = ap (λ (q : ℕ). q * (bx2 - bx1)) parts in
      rw width (omega (arith, rows, add-mul (by1 * 8) (y - by1 * 8) (bx2 - bx1)))

  set_back_pixel :
      (x y : ℕ)
      → bx1 * 8 ≤ x
      → x < bx2 * 8
      → by1 * 8 ≤ y
      → y < by2 * 8
      → pixel_lsb set_back (bx2 - bx1) y x ≡ bit (px x y)
  set_back_pixel x y x_lo x_hi y_lo y_hi =
      let l = y - by1 * 8 in
      let b = x / 8 - bx1 in
      let column : a.x1 + (8 * b + x % 8) ≡ x = omega arith in
      let line : a.y1 + l ≡ y = omega arith in
      ap (λ (q : ℕ). bit_at (mono.to_mono src none px a q) (x % 8)) (read_place x y x_lo y_lo)
      ∙ mono.to_mono_pixel src none px a l b (x % 8) (omega arith) (omega arith) (omega arith)
          (omega arith)
      ∙ ap (λ (q : ℕ). bit (px q (a.y1 + l))) column
      ∙ ap (λ (q : ℕ). bit (px x q)) line

  -- All pixels of a frame after the blocks of the clip were turned.
  module _ (dst : Buffer) (w h : ℕ) (wd : w % 8 ≡ 0) (hd : h % 8 ≡ 0) (hw : a.x2 ≤ w)
      (hh : a.y2 ≤ h) (hx : bx1 ≤ bx2) (hy : by1 ≤ by2) (bytes : IsBytes src) where
    abbrev turned : Buffer
    turned = rotate_ccw_scalar set_back dst (bx2 - bx1) (h / 8) (w / 8) bx1 bx2 by1 by2

    turned_within :
        (x y : ℕ) → within a x y ≡ true → pixel_msb turned (h / 8) (w - 1 - x) y ≡ bit (px x y)
    turned_within x y t =
        let inner : (a.x1 ≤ x) × (x < a.x2) × (a.y1 ≤ y) × (y < a.y2) = ground arith in
        let back : 8 * (w / 8) - 1 - (w - 1 - x) ≡ x = omega arith in
        rotate_ccw_scalar_pixel set_back dst (bx2 - bx1) (h / 8) (w / 8) bx1 bx2 by1 by2 (w - 1 - x)
          y (λ i. mono.to_mono-IsBytes src none px a bytes (i - bx1 - by1 * 8 * (bx2 - bx1))) hx
          (omega arith) (omega arith) (omega arith) (omega arith) (omega arith) (omega arith)
        ∙ ap (pixel_lsb set_back (bx2 - bx1) y) back
        ∙ set_back_pixel x y (omega arith) (omega arith) (omega arith) (omega arith)

    beyond :
        (x y : ℕ)
        → x < w
        → within a x y ≡ false
        → ((w / 8 - bx1) * 8 ≤ w - 1 - x)
          ⊎ ((w - 1 - x < (w / 8 - bx2) * 8) ⊎ ((y / 8 < by1) ⊎ (by2 ≤ y / 8)))
    beyond x y hx f = elim (dec_le a.x1 x) [
      | no p ↦ inl (omega arith)
      | yes p ↦ elim (dec_le a.x2 x) [
        | yes q ↦ inr (inl (omega arith))
        | no q ↦ elim (dec_le a.y1 y) [
          | no r ↦ inr (inr (inl (omega arith)))
          | yes r ↦ inr (inr (inr (ground arith)))
        ]
      ]
    ]

    turned_beyond :
        (x y : ℕ)
        → x < w
        → y < h
        → within a x y ≡ false
        → pixel_msb turned (h / 8) (w - 1 - x) y ≡ pixel_msb dst (h / 8) (w - 1 - x) y
    turned_beyond x y lx ly f =
        ap (λ (q : ℕ). bit_at q (7 - y % 8))
          (rotate_ccw_scalar_outside set_back dst (bx2 - bx1) (h / 8) (w / 8) bx1 bx2 by1 by2
            (w - 1 - x) (y / 8) hx hy (omega arith) (omega arith) (omega arith) (beyond x y lx f))

    turned_pixel :
        (x y : ℕ)
        → x < w
        → y < h
        → pixel_msb turned (h / 8) (w - 1 - x) y
          ≡ (if within a x y then bit (px x y) else pixel_msb dst (h / 8) (w - 1 - x) y)
    turned_pixel x y lx ly = elim (Bool-cases (within a x y)) [
      | inl t ↦ turned_within x y t ∙ rw t refl
      | inr f ↦ turned_beyond x y lx ly f ∙ rw f refl
    ]

nothing_within : (a : Rect) (x y : ℕ) → (a.x2 ≤ a.x1) ⊎ (a.y2 ≤ a.y1) → within a x y ≡ false
nothing_within a x y (inl p) = ground arith
nothing_within a x y (inr p) = ground arith

module _ (mono : Mono) (neon : Neon) (have_neon may_use_simd : Bool) where
  -- Where the frame's sides are multiples of 8, the pixels are those of the framebuffer, and `src_buf`
  -- holds bytes: after a clip, with SIMD or without, the display's pixel for each pixel of the frame is
  -- the framebuffer's if the aligned clip contains it, and as it was if not.
  pub p4_process_clip_rotated_pixel :
      (px : Pixels) (w h : ℕ) (clip : Rect) (src dst : Buffer) (x y : ℕ)
      → w % 8 ≡ 0
      → h % 8 ≡ 0
      → IsBytes src
      → x < w
      → y < h
      → pixel_msb
          (p4_process_clip_rotated mono neon have_neon may_use_simd px w h clip (src, dst)).1
          (h / 8)
          (w - 1 - x)
          y
        ≡ (if within (align_rotated w h clip) x y
            then bit (px x y)
            else pixel_msb dst (h / 8) (w - 1 - x) y)
  unfolding p4_process_clip_rotated
  p4_process_clip_rotated_pixel px w h clip src dst x y wd hd bytes lx ly =
      let a = align_rotated w h clip in
      let (left, right, top, bottom, hw, hh) = aligned_corners w h clip wd hd in
      if_ind
        (λ (r : Buffer × Buffer).
          pixel_msb r.1 (h / 8) (w - 1 - x) y
          ≡ (if within a x y then bit (px x y) else pixel_msb dst (h / 8) (w - 1 - x) y))
        (leb (a.x2 / 8) (a.x1 / 8) || leb (a.y2 / 8) (a.y1 / 8)) _ _
        (λ t. rw (nothing_within a x y (empty_sides a left right top bottom t)) refl)
        (λ f.
          ap (λ (d : Buffer). pixel_msb d (h / 8) (w - 1 - x) y)
            (rotate_blocks_simd neon have_neon may_use_simd _ dst _ (h / 8) (w / 8) (a.x1 / 8)
              (a.x2 / 8) (a.y1 / 8) (a.y2 / 8))
          ∙ turned_pixel mono src px a (a.x1 / 8) (a.x2 / 8) (a.y1 / 8) (a.y2 / 8) left right top
              bottom dst w h wd hd hw hh (ground arith) (ground arith) bytes x y lx ly)
