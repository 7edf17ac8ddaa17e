-- ===== src/Rotation/Scalar/Blocks.antt =====
-- What the loops of `rotate_ccw_scalar` store in the bytes of the destination, by row and column.
use native.Mathlib.Decide.{dec_le}
use p4_hmd.Base.{
  ℕ, zero, suc, ◌+◌, ◌-◌, ◌*◌, ◌≤◌, ◌<◌, ◌≡◌, refl, sym, ◌∙◌, ap, arith, ◌⊎◌, inl, inr,
}
use p4_hmd.Update.Word.{Buffer}
use p4_hmd.Rotation.Ops.{scatter8_rot}
use p4_hmd.Rotation.Ops.Block.{block_word, row_byte}
use p4_hmd.Rotation.Grid.{scatter8_rot_inside, scatter8_rot_outside}
use p4_hmd.Rotation.Scalar.{shifted, rotate_column, rotate_columns}

-- One column of blocks, whose destination starts at row `b`.
module _ (col : Buffer) (b ss ds : ℕ) where
  pub rotate_column_outside :
      (n : ℕ) (dst : Buffer) (by r c : ℕ)
      → by + n ≤ ds
      → c < ds
      → (r < b) ⊎ ((b + 8 ≤ r) ⊎ ((c < by) ⊎ (by + n ≤ c)))
      → rotate_column n col dst (b * ds) ss ds by (r * ds + c) ≡ dst (r * ds + c)
  unfolding rotate_column
  rotate_column_outside zero dst by r c h hc out = refl
  rotate_column_outside (suc n) dst by r c h hc out =
      let word = block_word (shifted col (by * 8 * ss)) ss in
      rotate_column_outside n (scatter8_rot dst (b * ds + by) ds word) (by + 1) r c (omega arith) hc
        (further n by r c out)
      ∙ scatter8_rot_outside dst ds b by word (omega arith) r c hc (elsewhere n by r c out)
    where
      further :
          (n by r c : ℕ)
          → (r < b) ⊎ ((b + 8 ≤ r) ⊎ ((c < by) ⊎ (by + suc n ≤ c)))
          → (r < b) ⊎ ((b + 8 ≤ r) ⊎ ((c < by + 1) ⊎ (by + 1 + n ≤ c)))
      further n by r c (inl p) = inl p
      further n by r c (inr (inl p)) = inr (inl p)
      further n by r c (inr (inr (inl p))) = inr (inr (inl (omega arith)))
      further n by r c (inr (inr (inr p))) = inr (inr (inr (omega arith)))

      elsewhere :
          (n by r c : ℕ)
          → (r < b) ⊎ ((b + 8 ≤ r) ⊎ ((c < by) ⊎ (by + suc n ≤ c)))
          → (r < b) ⊎ ((b + 8 ≤ r) ⊎ (c ≡ by → ⊥))
      elsewhere n by r c (inl p) = inl p
      elsewhere n by r c (inr (inl p)) = inr (inl p)
      elsewhere n by r c (inr (inr (inl p))) = inr (inr (λ e. omega arith))
      elsewhere n by r c (inr (inr (inr p))) = inr (inr (λ e. omega arith))

  pub rotate_column_inside :
      (n : ℕ) (dst : Buffer) (by y k : ℕ)
      → by + n ≤ ds
      → by ≤ y
      → y < by + n
      → k < 8
      → rotate_column n col dst (b * ds) ss ds by ((b + k) * ds + y)
        ≡ row_byte (block_word (shifted col (y * 8 * ss)) ss) k
  unfolding rotate_column
  rotate_column_inside zero dst by y k h lo hi hk = absurd (omega arith)
  rotate_column_inside (suc n) dst by y k h lo hi hk =
      let word = block_word (shifted col (by * 8 * ss)) ss in
      let dst' = scatter8_rot dst (b * ds + by) ds word in
      elim (dec_le (by + 1) y) [
        | yes later ↦ rotate_column_inside n dst' (by + 1) y k (omega arith) later (omega arith) hk
        | no now ↦
            let e : y ≡ by = omega arith in
            rotate_column_outside n dst' (by + 1) (b + k) y (omega arith) (omega arith)
              (inr (inr (inl (omega arith))))
            ∙ ap (λ (c : ℕ). dst' ((b + k) * ds + c)) e
            ∙ scatter8_rot_inside dst ds b by word (omega arith) k hk
            ∙ ap (λ (c : ℕ). row_byte (block_word (shifted col (c * 8 * ss)) ss) k) (sym e)
      ]

-- All columns of blocks: column `X` of the source is the rows from `(blocks_x - 1 - X) * 8`.
module _ (src : Buffer) (ss ds blocks_x by0 by1 : ℕ) (fits : by1 ≤ ds) where
  rounds_le : by0 ≤ by1 → by0 + (by1 - by0) ≤ ds
  rounds_le h = omega arith

  pub rotate_columns_outside :
      (n : ℕ) (dst : Buffer) (bx r c : ℕ)
      → by0 ≤ by1
      → bx + n ≤ blocks_x
      → c < ds
      → ((blocks_x - bx) * 8 ≤ r) ⊎ ((r < (blocks_x - bx - n) * 8) ⊎ ((c < by0) ⊎ (by1 ≤ c)))
      → rotate_columns n src dst ss ds blocks_x bx by0 by1 (r * ds + c) ≡ dst (r * ds + c)
  unfolding rotate_columns
  rotate_columns_outside zero dst bx r c hy h hc out = refl
  rotate_columns_outside (suc n) dst bx r c hy h hc out =
      let b = (blocks_x - 1 - bx) * 8 in
      let dst' = rotate_column (by1 - by0) (shifted src bx) dst (b * ds) ss ds by0 in
      rotate_columns_outside n dst' (bx + 1) r c hy (omega arith) hc (further n bx r c h out)
      ∙ rotate_column_outside (shifted src bx) b ss ds (by1 - by0) dst by0 r c (rounds_le hy) hc
          (elsewhere n bx r c hy h out)
    where
      further :
          (n bx r c : ℕ)
          → bx + suc n ≤ blocks_x
          → ((blocks_x - bx) * 8 ≤ r)
            ⊎ ((r < (blocks_x - bx - suc n) * 8) ⊎ ((c < by0) ⊎ (by1 ≤ c)))
          → ((blocks_x - (bx + 1)) * 8 ≤ r)
            ⊎ ((r < (blocks_x - (bx + 1) - n) * 8) ⊎ ((c < by0) ⊎ (by1 ≤ c)))
      further n bx r c h (inl p) = inl (omega arith)
      further n bx r c h (inr (inl p)) = inr (inl (omega arith))
      further n bx r c h (inr (inr p)) = inr (inr p)

      elsewhere :
          (n bx r c : ℕ)
          → by0 ≤ by1
          → bx + suc n ≤ blocks_x
          → ((blocks_x - bx) * 8 ≤ r)
            ⊎ ((r < (blocks_x - bx - suc n) * 8) ⊎ ((c < by0) ⊎ (by1 ≤ c)))
          → (r < (blocks_x - 1 - bx) * 8)
            ⊎ (((blocks_x - 1 - bx) * 8 + 8 ≤ r) ⊎ ((c < by0) ⊎ (by0 + (by1 - by0) ≤ c)))
      elsewhere n bx r c hy h (inl p) = inr (inl (omega arith))
      elsewhere n bx r c hy h (inr (inl p)) = inl (omega arith)
      elsewhere n bx r c hy h (inr (inr (inl p))) = inr (inr (inl p))
      elsewhere n bx r c hy h (inr (inr (inr p))) = inr (inr (inr (omega arith)))

  pub rotate_columns_inside :
      (n : ℕ) (dst : Buffer) (bx x y k : ℕ)
      → by0 ≤ y
      → y < by1
      → bx + n ≤ blocks_x
      → bx ≤ x
      → x < bx + n
      → k < 8
      → rotate_columns n src dst ss ds blocks_x bx by0 by1 (((blocks_x - 1 - x) * 8 + k) * ds + y)
        ≡ row_byte (block_word (shifted (shifted src x) (y * 8 * ss)) ss) k
  unfolding rotate_columns
  rotate_columns_inside zero dst bx x y k lo hi h at to hk = absurd (omega arith)
  rotate_columns_inside (suc n) dst bx x y k lo hi h at to hk =
      let b = λ (x : ℕ). (blocks_x - 1 - x) * 8 in
      let dst' = rotate_column (by1 - by0) (shifted src bx) dst (b bx * ds) ss ds by0 in
      elim (dec_le (bx + 1) x) [
        | yes later ↦
            rotate_columns_inside n dst' (bx + 1) x y k lo hi (omega arith) later (omega arith) hk
        | no now ↦
            let e : x ≡ bx = omega arith in
            rotate_columns_outside n dst' (bx + 1) (b x + k) y (omega arith) (omega arith)
              (omega arith) (inl (omega arith))
            ∙ ap (λ (c : ℕ). dst' ((b c + k) * ds + y)) e
            ∙ rotate_column_inside (shifted src bx) (b bx) ss ds (by1 - by0) dst by0 y k
                (omega arith) lo (omega arith) hk
            ∙ ap (λ (c : ℕ). row_byte (block_word (shifted (shifted src c) (y * 8 * ss)) ss) k)
                (sym e)
      ]
