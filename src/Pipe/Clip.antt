-- ===== src/Pipe/Clip.antt =====
-- The damage clips of kmod/drm_p4_main.c: conversion to one bit per pixel, and rotation.
pub mod Rotated
pub mod Native
pub mod Bytes
use p4_hmd.Base.{ℕ, ◌+◌, ◌-◌, ◌*◌, ◌/◌, ◌<◌, ◌≤◌, ◌≡◌, Bool, if◌then◌else◌, ltb, leb, ◌||◌, ◌⊎◌}
use p4_hmd.Base.{Option, none, some}
use p4_hmd.Base.BitAt.{bit_at}
use p4_hmd.Update.Word.{Buffer, IsBytes}
use p4_hmd.Driver.State.{Device, bit}
use p4_hmd.Rotation.Simd.{Neon, rotate_blocks}

-- `struct drm_rect` within the framebuffer: its sides are not negative.
pub record Rect : Type 0 where
  pub x1 : ℕ
  pub y1 : ℕ
  pub x2 : ℕ
  pub y2 : ℕ

abbrev pub hw_width : ℕ
hw_width = 280

-- The pixels behind `src_map`, by column and row: whether they are lit when the brightness is cut to
-- one bit.
abbrev pub Pixels : Type 0
Pixels = ℕ → ℕ → Bool

-- Bytes of a line of the clip, and from one line to the next.
abbrev pub line_bytes : Rect → ℕ
line_bytes clip = (clip.x2 - clip.x1 + 7) / 8

abbrev pub pitch_or : Option ℕ → Rect → ℕ
pitch_or none clip = line_bytes clip
pitch_or (some pitch) clip = pitch

-- `drm_fb_xrgb8888_to_mono` of the kernel: the clip's lines from the start of the destination on, the
-- leftmost pixel of a byte in its lowest bit. Nothing else is written.
pub record Mono : Type 0 where
  pub to_mono : Buffer → Option ℕ → Pixels → Rect → Buffer
  pub to_mono_pixel :
      (dst : Buffer) (pitch : Option ℕ) (px : Pixels) (clip : Rect) (l b j : ℕ)
      → line_bytes clip ≤ pitch_or pitch clip
      → l < clip.y2 - clip.y1
      → 8 * b + j < clip.x2 - clip.x1
      → j < 8
      → bit_at (to_mono dst pitch px clip (l * pitch_or pitch clip + b)) j
        ≡ bit (px (clip.x1 + (8 * b + j)) (clip.y1 + l))
  pub to_mono_outside :
      (dst : Buffer) (pitch : Option ℕ) (px : Pixels) (clip : Rect) (l b : ℕ)
      → line_bytes clip ≤ pitch_or pitch clip
      → b < pitch_or pitch clip
      → (clip.y2 - clip.y1 ≤ l) ⊎ (line_bytes clip ≤ b)
      → to_mono dst pitch px clip (l * pitch_or pitch clip + b) ≡ dst (l * pitch_or pitch clip + b)
  pub to_mono-IsBytes :
      (dst : Buffer) (pitch : Option ℕ) (px : Pixels) (clip : Rect)
      → IsBytes dst
      → IsBytes (to_mono dst pitch px clip)

-- `x & ~7` and `(x + 7) & ~7`, the latter not past the frame.
abbrev pub down8 : ℕ → ℕ
down8 x = x / 8 * 8

abbrev pub clamped : ℕ → ℕ → ℕ
clamped bound x = if ltb bound x then bound else x

unfoldable pub align_rotated : ℕ → ℕ → Rect → Rect
align_rotated fb_width fb_height clip = record {
  x1 = down8 clip.x1;
  y1 = down8 clip.y1;
  x2 = clamped fb_width (down8 (clip.x2 + 7));
  y2 = clamped fb_height (down8 (clip.y2 + 7));
}

unfoldable pub align_native : ℕ → ℕ → Rect → Rect
align_native fb_width fb_height clip = record {
  x1 = down8 clip.x1;
  y1 = clip.y1;
  x2 = clamped fb_width (down8 (clip.x2 + 7));
  y2 = clamped fb_height clip.y2;
}

-- The pointer `buf - k`, for reads at `k` and above.
abbrev pub before : Buffer → ℕ → Buffer
before buf k = λ i. buf (i - k)

unfoldable pub p4_process_clip_native : Mono → Pixels → ℕ → ℕ → Rect → Buffer → Buffer
p4_process_clip_native mono px fb_width fb_height clip dst_buf =
    mono.to_mono dst_buf (some (hw_width / 8)) px (align_native fb_width fb_height clip)

module _ (mono : Mono) (neon : Neon) (have_neon may_use_simd : Bool) where
  -- `src_buf` and the destination, before and after.
  unfoldable pub p4_process_clip_rotated : Pixels → ℕ → ℕ → Rect → Buffer × Buffer → Buffer × Buffer
  p4_process_clip_rotated px fb_width fb_height clip (src_buf, dst_buf) =
      let aligned = align_rotated fb_width fb_height clip in
      let bx1 = aligned.x1 / 8 in
      let bx2 = aligned.x2 / 8 in
      let by1 = aligned.y1 / 8 in
      let by2 = aligned.y2 / 8 in
      let src_stride = bx2 - bx1 in
      let converted = mono.to_mono src_buf none px aligned in
      let src_offset = before (before converted (by1 * 8 * src_stride)) bx1 in
      if leb bx2 bx1 || leb by2 by1 then (src_buf, dst_buf) else (
        converted,
        rotate_blocks neon have_neon may_use_simd src_offset dst_buf src_stride (fb_height / 8)
            (fb_width / 8) bx1 bx2 by1 by2,
      )

  -- With `dst_idx` 0, as it is called.
  unfoldable pub p4_process_clip : Pixels → ℕ → ℕ → Device → Rect → Device
  p4_process_clip px fb_width fb_height p4 clip =
      let (src_buf, dst_buf) =
        p4_process_clip_rotated px fb_width fb_height clip (p4.src_buf, p4.dst_buf_0) in
      if p4.is_native
      then record p4 {
        dst_buf_0 = p4_process_clip_native mono px fb_width fb_height clip p4.dst_buf_0;
      }
      else record p4 { src_buf = src_buf; dst_buf_0 = dst_buf }
