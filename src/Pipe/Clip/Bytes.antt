-- ===== src/Pipe/Clip/Bytes.antt =====
-- What the clips write into the destination is bytes.
use p4_hmd.Base.{ℕ, zero, suc, ◌+◌, ◌-◌, ◌*◌, ◌/◌, ◌<◌, sym, subst, arith, Bool, if_ind}
use p4_hmd.Base.{◌==◌, ◌||◌, leb, some, none}
use p4_hmd.Update.Word.{Buffer, IsBytes}
use p4_hmd.Driver.State.{Device}
use p4_hmd.Rotation.Ops.{store, scatter8_rot}
use p4_hmd.Rotation.Scalar.{shifted, rotate_column, rotate_columns, rotate_ccw_scalar}
use p4_hmd.Rotation.Simd.{Neon, rotate_blocks}
use p4_hmd.Rotation.Simd.Equal.{rotate_blocks_simd}
use p4_hmd.Pipe.Clip.{
  Mono, Pixels, Rect, hw_width, align_native, align_rotated, before, p4_process_clip,
  p4_process_clip_native, p4_process_clip_rotated,
}

store-IsBytes : (d : Buffer) (i x : ℕ) → IsBytes d → IsBytes (store d i x)
store-IsBytes d i x h j = if_ind (λ v. v < 256) (j == i) _ _ (λ t. omega arith) (λ f. h j)

scatter8_rot-IsBytes :
    (d : Buffer) (at stride x : ℕ) → IsBytes d → IsBytes (scatter8_rot d at stride x)
unfolding scatter8_rot
scatter8_rot-IsBytes d at stride x h = store-IsBytes _ _ _ (
    store-IsBytes _ _ _ (
      store-IsBytes _ _ _ (
        store-IsBytes _ _ _ (
          store-IsBytes _ _ _
            (store-IsBytes _ _ _ (store-IsBytes _ _ _ (store-IsBytes _ _ _ h)))))))

rotate_column-IsBytes :
    (n : ℕ) (col dst : Buffer) (base ss ds by : ℕ)
    → IsBytes dst
    → IsBytes (rotate_column n col dst base ss ds by)
unfolding rotate_column
rotate_column-IsBytes zero col dst base ss ds by h = h
rotate_column-IsBytes (suc n) col dst base ss ds by h =
    rotate_column-IsBytes n col _ base ss ds (by + 1) (scatter8_rot-IsBytes dst _ ds _ h)

rotate_columns-IsBytes :
    (n : ℕ) (src dst : Buffer) (ss ds blocks_x bx by0 by1 : ℕ)
    → IsBytes dst
    → IsBytes (rotate_columns n src dst ss ds blocks_x bx by0 by1)
unfolding rotate_columns
rotate_columns-IsBytes zero src dst ss ds blocks_x bx by0 by1 h = h
rotate_columns-IsBytes (suc n) src dst ss ds blocks_x bx by0 by1 h =
    rotate_columns-IsBytes n src _ ss ds blocks_x (bx + 1) by0 by1
      (rotate_column-IsBytes (by1 - by0) (shifted src bx) dst _ ss ds by0 h)

rotate_blocks-IsBytes :
    (neon : Neon) (have_neon may_use_simd : Bool) (src dst : Buffer)
    (ss ds blocks_x bx0 bx1 by0 by1 : ℕ)
    → IsBytes dst
    → IsBytes (rotate_blocks neon have_neon may_use_simd src dst ss ds blocks_x bx0 bx1 by0 by1)
unfolding rotate_ccw_scalar
rotate_blocks-IsBytes neon have_neon may_use_simd src dst ss ds blocks_x bx0 bx1 by0 by1 h =
    subst IsBytes
      (sym (rotate_blocks_simd neon have_neon may_use_simd src dst ss ds blocks_x bx0 bx1 by0 by1))
      (rotate_columns-IsBytes (bx1 - bx0) src dst ss ds blocks_x bx0 by0 by1 h)

module _ (mono : Mono) (neon : Neon) (have_neon may_use_simd : Bool) (px : Pixels) (w h : ℕ) where
  rotated-IsBytes :
      (clip : Rect) (src dst : Buffer)
      → IsBytes dst
      → IsBytes (p4_process_clip_rotated mono neon have_neon may_use_simd px w h clip (src, dst)).1
  unfolding p4_process_clip_rotated
  rotated-IsBytes clip src dst hd =
      let a = align_rotated w h clip in
      let converted = mono.to_mono src none px a in
      let bx1 = a.x1 / 8 in
      let ss = a.x2 / 8 - bx1 in
      let set_back = before (before converted (a.y1 / 8 * 8 * ss)) bx1 in
      if_ind (λ (r : Buffer × Buffer). IsBytes r.1)
        (leb (a.x2 / 8) bx1 || leb (a.y2 / 8) (a.y1 / 8)) (src, dst)
        (
          converted,
          rotate_blocks neon have_neon may_use_simd set_back dst ss (h / 8) (w / 8) bx1 (a.x2 / 8)
              (a.y1 / 8) (a.y2 / 8),
        )
        (λ t. hd)
        (λ f.
          rotate_blocks-IsBytes neon have_neon may_use_simd set_back dst ss (h / 8) (w / 8) bx1
            (a.x2 / 8) (a.y1 / 8) (a.y2 / 8) hd)

  pub p4_process_clip-IsBytes :
      (p4 : Device) (clip : Rect)
      → IsBytes p4.dst_buf_0
      → IsBytes (p4_process_clip mono neon have_neon may_use_simd px w h p4 clip).dst_buf_0
  unfolding p4_process_clip p4_process_clip_native
  p4_process_clip-IsBytes p4 clip hd =
      if_ind (λ (q : Device). IsBytes q.dst_buf_0) p4.is_native _ _
        (λ t. mono.to_mono-IsBytes p4.dst_buf_0 (some (hw_width / 8)) px (align_native w h clip) hd)
        (λ f. rotated-IsBytes clip p4.src_buf p4.dst_buf_0 hd)
