-- ===== src/Rotation/Grid.antt =====
-- A buffer as rows of a stride: what `scatter8_rot` stores where.
use native.Mathlib.Nat.{mul-le-mul_right, add-mul}
use native.Mathlib.Decide.{dec_le}
use p4_hmd.Base.{ℕ, zero, suc, ◌+◌, ◌*◌, ◌≤◌, ◌<◌, ◌≡◌, refl, sym, ◌∙◌, ap, arith}
use p4_hmd.Base.{u8, false, ◌==◌, ◌&&◌, Bool-cases, same_number, if◌then◌else◌, ◌⊎◌, inl, inr, ◌≢◌}
use p4_hmd.Update.Word.{Buffer}
use p4_hmd.Rotation.Ops.{scatter8_rot}
use p4_hmd.Rotation.Ops.Block.{row_byte}

row_le : (s r r' c c' : ℕ) → c < s → r * s + c ≡ r' * s + c' → r' ≤ r
row_le s r r' c c' h e = elim (dec_le r' r) [
  | yes le ↦ le
  | no gt ↦
      let above : r + 1 ≤ r' = omega arith in
      absurd (omega (arith, mul-le-mul_right s above, add-mul r 1 s))
]

-- A place in the buffer has one row and column.
pub grid_index : (s r r' c c' : ℕ) → c < s → c' < s → r * s + c ≡ r' * s + c' → (r ≡ r') × (c ≡ c')
grid_index s r r' c c' h h' e =
    let same : r ≡ r' = omega (arith, row_le s r r' c c' h e, row_le s r' r c' c h' (sym e)) in
    (same, omega (arith, ap (λ (q : ℕ). q * s) same))

-- Comparing places is comparing rows and columns.
pub same_place :
    (s r r' c c' : ℕ) → c < s → c' < s → (r' * s + c' == (r * s + c)) ≡ ((r' == r) && (c' == c))
same_place s r r' c c' h h' = elim (Bool-cases ((r' == r) && (c' == c))) [
  | inl t ↦
      let e : r' ≡ r = ground arith in let f : c' ≡ c = ground arith in rw (e, f) (ground arith)
  | inr n ↦ elim (Bool-cases (r' * s + c' == (r * s + c))) [
    | inl t ↦
        let (rows, cols) = grid_index s r' r c' c h' h (same_number _ _ t) in absurd (ground arith)
    | inr m ↦ m ∙ sym n
  ]
]

row_step : (b k s y : ℕ) → b * s + y + k * s ≡ (b + k) * s + y
row_step b k s y = omega (arith, add-mul b k s)

-- What `scatter8_rot` stores at the rows from `b` on, in column `y`, and what it leaves.
module _ (d : Buffer) (s b y x : ℕ) (hy : y < s) where
  scattered : (r c : ℕ) → ℕ
  scattered r c =
      if (r == b + 7) && (c == y)
      then u8 x
      else (if (r == b + 6) && (c == y)
          then row_byte x 6
          else (if (r == b + 5) && (c == y)
              then row_byte x 5
              else (if (r == b + 4) && (c == y)
                  then row_byte x 4
                  else (if (r == b + 3) && (c == y)
                      then row_byte x 3
                      else (if (r == b + 2) && (c == y)
                          then row_byte x 2
                          else (if (r == b + 1) && (c == y)
                              then row_byte x 1
                              else (if (r == b + 0) && (c == y)
                                  then row_byte x 0
                                  else d (r * s + c))))))))

  test : (k r c : ℕ) → c < s → (r * s + c == (b * s + y + k * s)) ≡ ((r == b + k) && (c == y))
  test k r c hc =
      ap (λ (i : ℕ). r * s + c == i) (row_step b k s y) ∙ same_place s (b + k) r y c hy hc

  scatter8_rot_grid : (r c : ℕ) → c < s → scatter8_rot d (b * s + y) s x (r * s + c) ≡ scattered r c
  unfolding scatter8_rot scattered
  scatter8_rot_grid r c hc =
      rw
        (
          test 7 r c hc,
          test 6 r c hc,
          test 5 r c hc,
          test 4 r c hc,
          test 3 r c hc,
          test 2 r c hc,
          test 1 r c hc,
          test 0 r c hc,
        )
        refl

  inside : (k : ℕ) → k < 8 → scattered (b + k) y ≡ row_byte x k
  unfolding scattered
  inside zero h = ground arith
  inside (suc zero) h = ground arith
  inside (suc (suc zero)) h = ground arith
  inside (suc (suc (suc zero))) h = ground arith
  inside (suc (suc (suc (suc zero)))) h = ground arith
  inside (suc (suc (suc (suc (suc zero))))) h = ground arith
  inside (suc (suc (suc (suc (suc (suc zero)))))) h = ground arith
  inside (suc (suc (suc (suc (suc (suc (suc zero))))))) h = ground arith
  inside (suc (suc (suc (suc (suc (suc (suc (suc k)))))))) h = absurd (omega arith)

  pub scatter8_rot_inside :
      (k : ℕ) → k < 8 → scatter8_rot d (b * s + y) s x ((b + k) * s + y) ≡ row_byte x k
  scatter8_rot_inside k hk = scatter8_rot_grid (b + k) y hy ∙ inside k hk

  missed :
      (r c k : ℕ) → k < 8 → (r < b) ⊎ ((b + 8 ≤ r) ⊎ (c ≢ y)) → (r == b + k) && (c == y) ≡ false
  missed r c k hk (inl p) = ground arith
  missed r c k hk (inr (inl p)) = ground arith
  missed r c k hk (inr (inr p)) = elim (Bool-cases (c == y)) [
    | inl t ↦ absurd (p (same_number _ _ t))
    | inr n ↦ rw n (ground arith)
  ]

  pub scatter8_rot_outside :
      (r c : ℕ)
      → c < s
      → (r < b) ⊎ ((b + 8 ≤ r) ⊎ (c ≢ y))
      → scatter8_rot d (b * s + y) s x (r * s + c) ≡ d (r * s + c)
  unfolding scattered
  scatter8_rot_outside r c hc out =
      let m = λ (k : ℕ) (hk : k < 8). missed r c k hk out in
      scatter8_rot_grid r c hc
      ∙ rw
          (
            m 7 (omega arith),
            m 6 (omega arith),
            m 5 (omega arith),
            m 4 (omega arith),
            m 3 (omega arith),
            m 2 (omega arith),
            m 1 (omega arith),
            m 0 (omega arith),
          )
          refl
