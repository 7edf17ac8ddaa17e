-- ===== src/Rotation/Simd/Equal.antt =====
-- The NEON code stores what the scalar code stores.
use p4_hmd.Base.{ℕ, zero, suc, ◌+◌, ◌-◌, ◌*◌, ◌^◌, ◌<◌, ◌≤◌, ◌≡◌, refl, ◌∙◌, ap, arith}
use p4_hmd.Base.{u64, Bool, ◌&&◌, if_ind}
use p4_hmd.Update.Word.{Buffer}
use p4_hmd.Rotation.Ops.{
  gather8_rot, scatter8_rot, delta_swap, transpose8x8_rot, bswap64, mask4, mask2, mask1,
}
use p4_hmd.Rotation.Ops.Pack.{gather8_rot-lt}
use p4_hmd.Rotation.Scalar.{shifted, rotate_column, rotate_columns, rotate_ccw_scalar}
use p4_hmd.Rotation.Simd.{Neon, delta_swap_pair, block_pair, neon_pairs, neon_rest}
use p4_hmd.Rotation.Simd.{neon_column, neon_columns, rotate_ccw_neon, rotate_blocks}

bswap64-u64 : (x : ℕ) → bswap64 (u64 x) ≡ bswap64 x
unfolding bswap64
bswap64-u64 x = omega arith

module _ (neon : Neon) where
  open neon use {
    U64x2, vdupq_n_u64, vcreate_u64, vcombine_u64, vshrq_n_u64, vshlq_n_u64, vandq_u64, veorq_u64,
    vreinterpretq_u8_u64, vreinterpretq_u64_u8, vrev64q_u8, vreinterpret_u8_u64,
    vreinterpret_u64_u8, vrev64_u8, vgetq_lane_u64, vget_lane_u64, vgetq_lane_u8, vget_lane_u8,
    lane_dup, lane_create, lane_combine_low, lane_combine_high, lane_shr, lane_shl, lane_and,
    lane_xor, byte_lane, lane_bytes, rev_lane, byte_lane_single, lane_bytes_single, rev_lane_single,
  }

  delta_swap_lane :
      (shift mask i : ℕ) (x : U64x2)
      → i < 2
      → mask < 2 ^ 64
      → vgetq_lane_u64 (delta_swap_pair neon shift mask x) i
        ≡ delta_swap shift mask (vgetq_lane_u64 x i)
  unfolding delta_swap_pair delta_swap
  delta_swap_lane shift mask i x hi hm =
      let t = vandq_u64 (veorq_u64 x (vshrq_n_u64 x shift)) (vdupq_n_u64 mask) in
      let small : u64 mask ≡ mask = omega arith in
      lane_xor (veorq_u64 x t) (vshlq_n_u64 t shift) i hi
      ∙ rw
          (
            lane_xor x t i hi,
            lane_shl t shift i hi,
            lane_and (veorq_u64 x (vshrq_n_u64 x shift)) (vdupq_n_u64 mask) i hi,
            lane_xor x (vshrq_n_u64 x shift) i hi,
            lane_shr x shift i hi,
            lane_dup mask i hi,
            small,
          )
          refl

  -- Reversed bytes are the swapped word, in each lane and in a single one.
  reversed_lane :
      (x : U64x2) (i : ℕ)
      → i < 2
      → vgetq_lane_u64 (vreinterpretq_u64_u8 (vrev64q_u8 (vreinterpretq_u8_u64 x))) i
        ≡ bswap64 (vgetq_lane_u64 x i)
  unfolding bswap64
  reversed_lane x i hi =
      let v = vgetq_lane_u64 x i in
      let b = vreinterpretq_u8_u64 x in
      let at =
        λ (j : ℕ) (hj : j < 8). rev_lane b i j hi hj ∙ byte_lane x i (7 - j) hi (omega arith) in
      lane_bytes (vrev64q_u8 b) i hi
      ∙ rw
          (
            at 0 (omega arith),
            at 1 (omega arith),
            at 2 (omega arith),
            at 3 (omega arith),
            at 4 (omega arith),
            at 5 (omega arith),
            at 6 (omega arith),
            at 7 (omega arith),
          )
          (omega arith)

  reversed_single :
      (n : ℕ)
      → vget_lane_u64 (vreinterpret_u64_u8 (vrev64_u8 (vreinterpret_u8_u64 (vcreate_u64 n)))) 0
        ≡ bswap64 n
  unfolding bswap64
  reversed_single n =
      let x = vcreate_u64 n in
      let b = vreinterpret_u8_u64 x in
      let at =
        λ (j : ℕ) (hj : j < 8). rev_lane_single b j hj ∙ byte_lane_single x (7 - j) (omega arith) in
      lane_bytes_single (vrev64_u8 b)
      ∙ rw
          (
            at 0 (omega arith),
            at 1 (omega arith),
            at 2 (omega arith),
            at 3 (omega arith),
            at 4 (omega arith),
            at 5 (omega arith),
            at 6 (omega arith),
            at 7 (omega arith),
            lane_create n,
          )
          (omega arith)

  transposed_lane :
      (a b i v : ℕ)
      → i < 2
      → vgetq_lane_u64 (vcombine_u64 (vcreate_u64 a) (vcreate_u64 b)) i ≡ v
      → vgetq_lane_u64 (block_pair neon a b) i ≡ bswap64 (transpose8x8_rot v)
  unfolding block_pair transpose8x8_rot
  transposed_lane a b i v hi e =
      let x = vcombine_u64 (vcreate_u64 a) (vcreate_u64 b) in
      let x4 = delta_swap_pair neon 28 mask4 x in
      let x2 = delta_swap_pair neon 14 mask2 x4 in
      let x1 = delta_swap_pair neon 7 mask1 x2 in
      reversed_lane x1 i hi
      ∙ ap bswap64 (
          delta_swap_lane 7 mask1 i x2 hi (omega arith)
          ∙ ap (delta_swap 7 mask1) (
              delta_swap_lane 14 mask2 i x4 hi (omega arith)
              ∙ ap (delta_swap 14 mask2)
                  (delta_swap_lane 28 mask4 i x hi (omega arith) ∙ ap (delta_swap 28 mask4) e)))

  kept : (a : ℕ) → a < 2 ^ 64 → vget_lane_u64 (vcreate_u64 a) 0 ≡ a
  kept a h = lane_create a ∙ omega arith

  first_word :
      (a b : ℕ) → a < 2 ^ 64 → vgetq_lane_u64 (block_pair neon a b) 0 ≡ bswap64 (transpose8x8_rot a)
  first_word a b h =
      transposed_lane a b 0 a (omega arith)
        (lane_combine_low (vcreate_u64 a) (vcreate_u64 b) ∙ kept a h)

  second_word :
      (a b : ℕ) → b < 2 ^ 64 → vgetq_lane_u64 (block_pair neon a b) 1 ≡ bswap64 (transpose8x8_rot b)
  second_word a b h =
      transposed_lane a b 1 b (omega arith)
        (lane_combine_high (vcreate_u64 a) (vcreate_u64 b) ∙ kept b h)

  neon_rest_lem :
      (n : ℕ) (col dst : Buffer) (base ss ds by : ℕ)
      → neon_rest neon n col dst base ss ds by ≡ rotate_column n col dst base ss ds by
  unfolding neon_rest rotate_column
  neon_rest_lem zero col dst base ss ds by = refl
  neon_rest_lem (suc n) col dst base ss ds by =
      let val = transpose8x8_rot (gather8_rot (shifted col (by * 8 * ss)) ss) in
      rw (reversed_single val) (neon_rest_lem n col _ base ss ds (by + 1))

  -- The pairs and the rest, one after the other, are the single loop.
  module _ (col : Buffer) (base ss ds : ℕ) where
    after_pairs : ℕ → ℕ → Buffer × ℕ → Buffer
    after_pairs n by r = rotate_column (by + n - r.1) col r.0 base ss ds r.1

    pairs_then_rest :
        (n : ℕ) (dst : Buffer) (by : ℕ)
        → after_pairs n by (neon_pairs neon n col dst base ss ds by)
          ≡ rotate_column n col dst base ss ds by
    unfolding neon_pairs after_pairs rotate_column
    pairs_then_rest zero dst by =
        let e : by + 0 - by ≡ 0 = omega arith in
        ap (λ (k : ℕ). rotate_column k col dst base ss ds by) e
    pairs_then_rest (suc zero) dst by =
        let e : by + 1 - by ≡ 1 = omega arith in
        ap (λ (k : ℕ). rotate_column k col dst base ss ds by) e
    pairs_then_rest (suc (suc n)) dst by =
        let g = λ (k : ℕ). gather8_rot (shifted col ((by + k) * 8 * ss)) ss in
        let d = λ (v w : ℕ).
          scatter8_rot (scatter8_rot dst (base + (by + 0)) ds v) (base + (by + 1)) ds w in
        let word = λ (k : ℕ). bswap64 (transpose8x8_rot (g k)) in
        let x = block_pair neon (g 0) (g 1) in
        let d' = d (vgetq_lane_u64 x 0) (vgetq_lane_u64 x 1) in
        let r = neon_pairs neon n col d' base ss ds (by + 2) in
        let more : by + suc (suc n) ≡ by + 2 + n = omega arith in
        let here : by + 0 ≡ by = omega arith in
        let next : by + 2 ≡ by + 1 + 1 = omega arith in
        let stored : d' ≡ d (word 0) (word 1) = λ i.
          d (first_word (g 0) (g 1) (gather8_rot-lt (shifted col ((by + 0) * 8 * ss)) ss) i)
            (second_word (g 0) (g 1) (gather8_rot-lt (shifted col ((by + 1) * 8 * ss)) ss) i) in
        ap (λ (k : ℕ). rotate_column (k - r.1) col r.0 base ss ds r.1) more
        ∙ pairs_then_rest n d' (by + 2)
        ∙ ap (λ (b : Buffer). rotate_column n col b base ss ds (by + 2)) stored
        ∙ rw (here, next) refl

  -- The pairs move `by` on, and not past the end.
  neon_pairs_end :
      (n : ℕ) (col dst : Buffer) (base ss ds by : ℕ)
      → (by ≤ (neon_pairs neon n col dst base ss ds by).1)
        × ((neon_pairs neon n col dst base ss ds by).1 ≤ by + n)
  unfolding neon_pairs
  neon_pairs_end zero col dst base ss ds by = omega arith
  neon_pairs_end (suc zero) col dst base ss ds by = omega arith
  neon_pairs_end (suc (suc n)) col dst base ss ds by =
      omega (arith, neon_pairs_end n col _ base ss ds (by + 2))

  neon_column_lem :
      (col dst : Buffer) (base ss ds by0 by1 : ℕ)
      → neon_column neon col dst base ss ds by0 by1
        ≡ rotate_column (by1 - by0) col dst base ss ds by0
  unfolding neon_column after_pairs
  neon_column_lem col dst base ss ds by0 by1 =
      let r = neon_pairs neon (by1 - by0) col dst base ss ds by0 in
      let ends = neon_pairs_end (by1 - by0) col dst base ss ds by0 in
      let left : by1 - r.1 ≡ by0 + (by1 - by0) - r.1 = omega arith in
      neon_rest_lem (by1 - r.1) col r.0 base ss ds r.1
      ∙ ap (λ (k : ℕ). rotate_column k col r.0 base ss ds r.1) left
      ∙ pairs_then_rest col base ss ds (by1 - by0) dst by0

  neon_columns_lem :
      (n : ℕ) (src dst : Buffer) (ss ds blocks_x bx by0 by1 : ℕ)
      → neon_columns neon n src dst ss ds blocks_x bx by0 by1
        ≡ rotate_columns n src dst ss ds blocks_x bx by0 by1
  unfolding neon_columns rotate_columns
  neon_columns_lem zero src dst ss ds blocks_x bx by0 by1 = refl
  neon_columns_lem (suc n) src dst ss ds blocks_x bx by0 by1 =
      let base = (blocks_x - 1 - bx) * 8 * ds in
      rw (neon_column_lem (shifted src bx) dst base ss ds by0 by1)
        (neon_columns_lem n src _ ss ds blocks_x (bx + 1) by0 by1)

  -- `rotate_blocks` stores the same bytes whether the SIMD code is built and usable or not.
  pub rotate_blocks_simd :
      (have_neon may_use_simd : Bool) (src dst : Buffer) (ss ds blocks_x bx0 bx1 by0 by1 : ℕ)
      → rotate_blocks neon have_neon may_use_simd src dst ss ds blocks_x bx0 bx1 by0 by1
        ≡ rotate_ccw_scalar src dst ss ds blocks_x bx0 bx1 by0 by1
  unfolding rotate_blocks rotate_ccw_neon rotate_ccw_scalar
  rotate_blocks_simd have_neon may_use_simd src dst ss ds blocks_x bx0 bx1 by0 by1 =
      if_ind (λ d. d ≡ rotate_columns (bx1 - bx0) src dst ss ds blocks_x bx0 by0 by1)
        (have_neon && may_use_simd) _ _
        (λ on. neon_columns_lem (bx1 - bx0) src dst ss ds blocks_x bx0 by0 by1) (λ off. refl)
