-- ===== src/Rotation/Simd.antt =====
-- kmod/rotate_neon.c and the choice in `rotate_blocks` of kmod/rotation.c.
pub mod Equal
use p4_hmd.Base.{ℕ, zero, suc, ◌+◌, ◌-◌, ◌*◌, ◌/◌, ◌%◌, ◌^◌, ◌<◌, ◌≡◌}
use p4_hmd.Base.{u8, u64, ◌<<<◌, ◌>>>◌, bit_and, bit_xor, Bool, ◌&&◌, if◌then◌else◌}
use p4_hmd.Update.Word.{Buffer}
use p4_hmd.Rotation.Ops.{gather8_rot, scatter8_rot, transpose8x8_rot, mask4, mask2, mask1}
use p4_hmd.Rotation.Scalar.{shifted, rotate_ccw_scalar}

-- Eight bytes as a number, the lowest first.
abbrev pub from_bytes : Buffer → ℕ
from_bytes b =
    b 0
    + b 1 * 2 ^ 8
    + b 2 * 2 ^ 16
    + b 3 * 2 ^ 24
    + b 4 * 2 ^ 32
    + b 5 * 2 ^ 40
    + b 6 * 2 ^ 48
    + b 7 * 2 ^ 56

-- The intrinsics of `arm_neon.h` that the code calls, and what they do lane by lane.
pub record Neon : Type 1 where
  pub U64x2 : Type 0
  pub U64x1 : Type 0
  pub U8x16 : Type 0
  pub U8x8 : Type 0
  pub vdupq_n_u64 : ℕ → U64x2
  pub vcreate_u64 : ℕ → U64x1
  pub vcombine_u64 : U64x1 → U64x1 → U64x2
  pub vshrq_n_u64 : U64x2 → ℕ → U64x2
  pub vshlq_n_u64 : U64x2 → ℕ → U64x2
  pub vandq_u64 : U64x2 → U64x2 → U64x2
  pub veorq_u64 : U64x2 → U64x2 → U64x2
  pub vreinterpretq_u8_u64 : U64x2 → U8x16
  pub vreinterpretq_u64_u8 : U8x16 → U64x2
  pub vrev64q_u8 : U8x16 → U8x16
  pub vreinterpret_u8_u64 : U64x1 → U8x8
  pub vreinterpret_u64_u8 : U8x8 → U64x1
  pub vrev64_u8 : U8x8 → U8x8
  pub vgetq_lane_u64 : U64x2 → ℕ → ℕ
  pub vget_lane_u64 : U64x1 → ℕ → ℕ
  pub vgetq_lane_u8 : U8x16 → ℕ → ℕ
  pub vget_lane_u8 : U8x8 → ℕ → ℕ
  pub lane_dup : (n i : ℕ) → i < 2 → vgetq_lane_u64 (vdupq_n_u64 n) i ≡ u64 n
  pub lane_create : (n : ℕ) → vget_lane_u64 (vcreate_u64 n) 0 ≡ u64 n
  pub lane_combine_low : (a b : U64x1) → vgetq_lane_u64 (vcombine_u64 a b) 0 ≡ vget_lane_u64 a 0
  pub lane_combine_high : (a b : U64x1) → vgetq_lane_u64 (vcombine_u64 a b) 1 ≡ vget_lane_u64 b 0
  pub lane_shr :
      (x : U64x2) (n i : ℕ) → i < 2 → vgetq_lane_u64 (vshrq_n_u64 x n) i ≡ vgetq_lane_u64 x i >>> n
  pub lane_shl :
      (x : U64x2) (n i : ℕ)
      → i < 2
      → vgetq_lane_u64 (vshlq_n_u64 x n) i ≡ u64 (vgetq_lane_u64 x i <<< n)
  pub lane_and :
      (x y : U64x2) (i : ℕ)
      → i < 2
      → vgetq_lane_u64 (vandq_u64 x y) i ≡ bit_and (vgetq_lane_u64 x i) (vgetq_lane_u64 y i)
  pub lane_xor :
      (x y : U64x2) (i : ℕ)
      → i < 2
      → vgetq_lane_u64 (veorq_u64 x y) i ≡ bit_xor (vgetq_lane_u64 x i) (vgetq_lane_u64 y i)
  pub byte_lane :
      (x : U64x2) (i j : ℕ)
      → i < 2
      → j < 8
      → vgetq_lane_u8 (vreinterpretq_u8_u64 x) (8 * i + j) ≡ u8 (vgetq_lane_u64 x i >>> (8 * j))
  pub lane_bytes :
      (b : U8x16) (i : ℕ)
      → i < 2
      → vgetq_lane_u64 (vreinterpretq_u64_u8 b) i ≡ from_bytes (λ j. vgetq_lane_u8 b (8 * i + j))
  pub rev_lane :
      (b : U8x16) (i j : ℕ)
      → i < 2
      → j < 8
      → vgetq_lane_u8 (vrev64q_u8 b) (8 * i + j) ≡ vgetq_lane_u8 b (8 * i + (7 - j))
  pub byte_lane_single :
      (x : U64x1) (j : ℕ)
      → j < 8
      → vget_lane_u8 (vreinterpret_u8_u64 x) j ≡ u8 (vget_lane_u64 x 0 >>> (8 * j))
  pub lane_bytes_single :
      (b : U8x8) → vget_lane_u64 (vreinterpret_u64_u8 b) 0 ≡ from_bytes (vget_lane_u8 b)
  pub rev_lane_single :
      (b : U8x8) (j : ℕ) → j < 8 → vget_lane_u8 (vrev64_u8 b) j ≡ vget_lane_u8 b (7 - j)

module _ (neon : Neon) where
  open neon use {
    U64x2, vdupq_n_u64, vcreate_u64, vcombine_u64, vshrq_n_u64, vshlq_n_u64, vandq_u64, veorq_u64,
    vreinterpretq_u8_u64, vreinterpretq_u64_u8, vrev64q_u8, vreinterpret_u8_u64,
    vreinterpret_u64_u8, vrev64_u8, vgetq_lane_u64, vget_lane_u64,
  }

  -- One stage of the transpose, on both lanes.
  unfoldable pub delta_swap_pair : ℕ → ℕ → U64x2 → U64x2
  delta_swap_pair shift mask x =
      let t = vandq_u64 (veorq_u64 x (vshrq_n_u64 x shift)) (vdupq_n_u64 mask) in
      veorq_u64 (veorq_u64 x t) (vshlq_n_u64 t shift)

  unfoldable pub block_pair : ℕ → ℕ → U64x2
  block_pair a b =
      let x = vcombine_u64 (vcreate_u64 a) (vcreate_u64 b) in
      let x = delta_swap_pair 28 mask4 x in
      let x = delta_swap_pair 14 mask2 x in
      let x = delta_swap_pair 7 mask1 x in
      vreinterpretq_u64_u8 (vrev64q_u8 (vreinterpretq_u8_u64 x))

  -- The loop over pairs of blocks, with `left` blocks to go: the buffer and `by` after it.
  unfoldable pub neon_pairs : ℕ → Buffer → Buffer → ℕ → ℕ → ℕ → ℕ → Buffer × ℕ
  neon_pairs zero col dst base src_stride dst_stride by = (dst, by)
  neon_pairs (suc zero) col dst base src_stride dst_stride by = (dst, by)
  neon_pairs (suc (suc left)) col dst base src_stride dst_stride by =
      let s0 = shifted col ((by + 0) * 8 * src_stride) in
      let s1 = shifted col ((by + 1) * 8 * src_stride) in
      let x = block_pair (gather8_rot s0 src_stride) (gather8_rot s1 src_stride) in
      let d0 = scatter8_rot dst (base + (by + 0)) dst_stride (vgetq_lane_u64 x 0) in
      let d1 = scatter8_rot d0 (base + (by + 1)) dst_stride (vgetq_lane_u64 x 1) in
      neon_pairs left col d1 base src_stride dst_stride (by + 2)

  -- The loop over the blocks that are left.
  unfoldable pub neon_rest : ℕ → Buffer → Buffer → ℕ → ℕ → ℕ → ℕ → Buffer
  neon_rest zero col dst base src_stride dst_stride by = dst
  neon_rest (suc left) col dst base src_stride dst_stride by =
      let val = transpose8x8_rot (gather8_rot (shifted col (by * 8 * src_stride)) src_stride) in
      let b = vrev64_u8 (vreinterpret_u8_u64 (vcreate_u64 val)) in
      let val = vget_lane_u64 (vreinterpret_u64_u8 b) 0 in
      neon_rest left col (scatter8_rot dst (base + by) dst_stride val) base src_stride dst_stride
        (by + 1)

  unfoldable pub neon_column : Buffer → Buffer → ℕ → ℕ → ℕ → ℕ → ℕ → Buffer
  neon_column col dst base src_stride dst_stride by_start by_end =
      let (dst', by) = neon_pairs (by_end - by_start) col dst base src_stride dst_stride by_start in
      neon_rest (by_end - by) col dst' base src_stride dst_stride by

  unfoldable pub neon_columns : ℕ → Buffer → Buffer → ℕ → ℕ → ℕ → ℕ → ℕ → ℕ → Buffer
  neon_columns zero src dst src_stride dst_stride blocks_x bx by_start by_end = dst
  neon_columns (suc left) src dst src_stride dst_stride blocks_x bx by_start by_end =
      let src_col = shifted src bx in
      let dst_base = (blocks_x - 1 - bx) * 8 * dst_stride in
      neon_columns left src (neon_column src_col dst dst_base src_stride dst_stride by_start by_end)
        src_stride dst_stride blocks_x (bx + 1) by_start by_end

  unfoldable pub rotate_ccw_neon : Buffer → Buffer → ℕ → ℕ → ℕ → ℕ → ℕ → ℕ → ℕ → Buffer
  rotate_ccw_neon src dst src_stride dst_stride blocks_x bx_start bx_end by_start by_end =
      neon_columns (bx_end - bx_start) src dst src_stride dst_stride blocks_x bx_start by_start
        by_end

  -- `may_use_simd` is the answer of the kernel's function; `have_neon` is set when the code is built.
  unfoldable pub rotate_blocks : Bool → Bool → Buffer → Buffer → ℕ → ℕ → ℕ → ℕ → ℕ → ℕ → ℕ → Buffer
  rotate_blocks have_neon may_use_simd src dst src_stride dst_stride blocks_x bx0 bx1 by0 by1 =
      if have_neon && may_use_simd
      then rotate_ccw_neon src dst src_stride dst_stride blocks_x bx0 bx1 by0 by1
      else rotate_ccw_scalar src dst src_stride dst_stride blocks_x bx0 bx1 by0 by1
