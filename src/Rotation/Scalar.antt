-- ===== src/Rotation/Scalar.antt =====
-- kmod/rotation.c without SIMD: the blocks of the range, column by column.
pub mod Blocks
pub mod Pixels
use p4_hmd.Base.{ℕ, zero, suc, ◌+◌, ◌-◌, ◌*◌}
use p4_hmd.Update.Word.{Buffer}
use p4_hmd.Rotation.Ops.{gather8_rot, scatter8_rot, transpose8x8_rot, bswap64}

-- The bytes at the pointer `buf + k`.
abbrev pub shifted : Buffer → ℕ → Buffer
shifted buf k = λ i. buf (k + i)

-- The loop over `by`, with `left` rounds to go; `base` is an index of `dst`.
unfoldable pub rotate_column : ℕ → Buffer → Buffer → ℕ → ℕ → ℕ → ℕ → Buffer
rotate_column zero col dst base src_stride dst_stride by = dst
rotate_column (suc left) col dst base src_stride dst_stride by =
    let x = gather8_rot (shifted col (by * 8 * src_stride)) src_stride in
    let y = transpose8x8_rot x in
    rotate_column left col (scatter8_rot dst (base + by) dst_stride (bswap64 y)) base src_stride
      dst_stride (by + 1)

-- The loop over `bx`. The source's `base` is before `dst` where `bx` is `blocks_x` or more.
unfoldable pub rotate_columns : ℕ → Buffer → Buffer → ℕ → ℕ → ℕ → ℕ → ℕ → ℕ → Buffer
rotate_columns zero src dst src_stride dst_stride blocks_x bx by0 by1 = dst
rotate_columns (suc left) src dst src_stride dst_stride blocks_x bx by0 by1 =
    let col = shifted src bx in
    let base = (blocks_x - 1 - bx) * 8 * dst_stride in
    rotate_columns left src (rotate_column (by1 - by0) col dst base src_stride dst_stride by0)
      src_stride dst_stride blocks_x (bx + 1) by0 by1

unfoldable pub rotate_ccw_scalar : Buffer → Buffer → ℕ → ℕ → ℕ → ℕ → ℕ → ℕ → ℕ → Buffer
rotate_ccw_scalar src dst src_stride dst_stride blocks_x bx0 bx1 by0 by1 =
    rotate_columns (bx1 - bx0) src dst src_stride dst_stride blocks_x bx0 by0 by1
