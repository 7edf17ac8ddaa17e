-- ===== src/Rotation/Scalar/Pixels.antt =====
-- `rotate_ccw_scalar` on pixels: a quarter turn counterclockwise, and nothing outside the range.
use p4_hmd.Base.{ℕ, ◌+◌, ◌-◌, ◌*◌, ◌/◌, ◌%◌, ◌≤◌, ◌<◌, ◌≡◌, ◌∙◌, ap, arith, ◌⊎◌, inl, inr}
use native.Mathlib.Nat.{add-mul}
use p4_hmd.Base.BitAt.{bit_at}
use p4_hmd.Update.Word.{Buffer, IsBytes}
use p4_hmd.Rotation.Ops.Block.{block_word, row_byte, block_pixel}
use p4_hmd.Rotation.Scalar.{shifted, rotate_ccw_scalar}
use p4_hmd.Rotation.Scalar.Blocks.{rotate_columns_inside, rotate_columns_outside}

-- Pixel `c` of row `r`, where the leftmost pixel of a byte is its highest bit, or its lowest.
abbrev pub pixel_msb : Buffer → ℕ → ℕ → ℕ → ℕ
pixel_msb buf stride r c = bit_at (buf (r * stride + c / 8)) (7 - c % 8)

abbrev pub pixel_lsb : Buffer → ℕ → ℕ → ℕ → ℕ
pixel_lsb buf stride r c = bit_at (buf (r * stride + c / 8)) (c % 8)

module _ (src dst : Buffer) (ss ds blocks_x bx0 bx1 by0 by1 : ℕ) where
  abbrev rotated : Buffer
  rotated = rotate_ccw_scalar src dst ss ds blocks_x bx0 bx1 by0 by1

  -- Where the source is bytes, the range of blocks is not backwards, and it lies within the `blocks_x`
  -- block columns and the destination's stride: pixel `c` of row `r` of the blocks' destination is
  -- pixel `8 * blocks_x - 1 - r` of row `c` of the source, turned a quarter counterclockwise.
  pub rotate_ccw_scalar_pixel :
      (r c : ℕ)
      → IsBytes src
      → bx0 ≤ bx1
      → bx1 ≤ blocks_x
      → by1 ≤ ds
      → (blocks_x - bx1) * 8 ≤ r
      → r < (blocks_x - bx0) * 8
      → by0 * 8 ≤ c
      → c < by1 * 8
      → pixel_msb rotated ds r c ≡ pixel_lsb src ss c (8 * blocks_x - 1 - r)
  unfolding rotate_ccw_scalar
  rotate_ccw_scalar_pixel r c h hx hb hd lo hi left right =
      let x = blocks_x - 1 - r / 8 in
      let y = c / 8 in
      let row : r ≡ (blocks_x - 1 - x) * 8 + r % 8 = omega arith in
      let s = shifted (shifted src x) (y * 8 * ss) in
      let stored : rotated (r * ds + y) ≡ row_byte (block_word s ss) (r % 8) =
        ap (λ (q : ℕ). rotated (q * ds + y)) row
        ∙ rotate_columns_inside src ss ds blocks_x by0 by1 hd (bx1 - bx0) dst bx0 x y (r % 8)
            (omega arith) (omega arith) (omega arith) (omega arith) (omega arith) (omega arith) in
      ap (λ (q : ℕ). bit_at q (7 - c % 8)) stored
      ∙ block_pixel s ss (r % 8) (c % 8) (λ i. h (x + (y * 8 * ss + i))) (omega arith) (omega arith)
      ∙ ap (λ (q : ℕ). bit_at (src q) (7 - r % 8)) (place c ss x)
      ∙ ap (λ (q : ℕ). bit_at (src (c * ss + q)) (7 - r % 8)) (column r hi)
      ∙ ap (bit_at (src (c * ss + (8 * blocks_x - 1 - r) / 8))) (within r hi)
    where
      parts : (c : ℕ) → c / 8 * 8 + c % 8 ≡ c
      parts c = omega arith

      place : (c ss x : ℕ) → x + (c / 8 * 8 * ss + c % 8 * ss) ≡ c * ss + x
      place c ss x = omega (arith, add-mul (c / 8 * 8) (c % 8) ss, ap (λ (q : ℕ). q * ss) (parts c))

      column :
          (r : ℕ) → r < (blocks_x - bx0) * 8 → blocks_x - 1 - r / 8 ≡ (8 * blocks_x - 1 - r) / 8
      column r hi = omega arith

      within : (r : ℕ) → r < (blocks_x - bx0) * 8 → 7 - r % 8 ≡ (8 * blocks_x - 1 - r) % 8
      within r hi = omega arith

  -- Where the range of blocks is not backwards and lies within the `blocks_x` block columns and the
  -- destination's stride: every byte of the destination outside the rotated blocks is as it was.
  pub rotate_ccw_scalar_outside :
      (r c : ℕ)
      → bx0 ≤ bx1
      → by0 ≤ by1
      → bx1 ≤ blocks_x
      → by1 ≤ ds
      → c < ds
      → ((blocks_x - bx0) * 8 ≤ r) ⊎ ((r < (blocks_x - bx1) * 8) ⊎ ((c < by0) ⊎ (by1 ≤ c)))
      → rotated (r * ds + c) ≡ dst (r * ds + c)
  unfolding rotate_ccw_scalar
  rotate_ccw_scalar_outside r c hx hy hb hd hc out =
      rotate_columns_outside src ss ds blocks_x by0 by1 hd (bx1 - bx0) dst bx0 r c hy (omega arith)
        hc (rows out)
    where
      rows :
          ((blocks_x - bx0) * 8 ≤ r) ⊎ ((r < (blocks_x - bx1) * 8) ⊎ ((c < by0) ⊎ (by1 ≤ c)))
          → ((blocks_x - bx0) * 8 ≤ r)
            ⊎ ((r < (blocks_x - bx0 - (bx1 - bx0)) * 8) ⊎ ((c < by0) ⊎ (by1 ≤ c)))
      rows (inl p) = inl p
      rows (inr (inl p)) = inr (inl (omega arith))
      rows (inr (inr p)) = inr (inr p)
