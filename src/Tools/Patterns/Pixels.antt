-- ===== src/Tools/Patterns/Pixels.antt =====
-- Which pixels the loops of the patterns set.
use Prim.Native.Nat.{max}
use p4_hmd.Base.{ℕ, zero, suc, ◌+◌, ◌-◌, ◌*◌, ◌/◌, ◌%◌, ◌≤◌, ◌<◌, ◌≡◌, refl, ◌∙◌, ap, arith}
use p4_hmd.Base.{Bool, true, Bool-cases, ◌&&◌, ◌==◌, ltb, leb, if◌then◌else◌}
use p4_hmd.Base.{inl, inr, ◌<<<◌, all_below, all_below_at, same_number}
use p4_hmd.Base.BitAt.{bit_at, bit_at-or, bit_at-lt}
use p4_hmd.Update.Word.{Buffer}
use p4_hmd.Rotation.Grid.{same_place}
use p4_hmd.Rotation.Scalar.Pixels.{pixel_msb}
use p4_hmd.Tools.Patterns.{set_pixel, plot_line, plot}

-- A pixel of the display's framebuffer.
abbrev pub pixel : Buffer → ℕ → ℕ → ℕ
pixel fb x y = pixel_msb fb 35 y x

single_bit :
    all_below 8 (λ k. all_below 8 (λ b. bit_at (1 <<< k) b == (if b == k then 1 else 0))) ≡ true
single_bit = refl

single_bit_at : (k b : ℕ) → k < 8 → b < 8 → bit_at (1 <<< k) b ≡ (if b == k then 1 else 0)
single_bit_at k b hk hb = same_number _ _ (
    all_below_at 8 (λ c. bit_at (1 <<< k) c == (if c == k then 1 else 0)) b
      (all_below_at 8 (λ j. all_below 8 (λ c. bit_at (1 <<< j) c == (if c == j then 1 else 0))) k
        single_bit hk)
      hb)

set_pixel_lem :
    (fb : Buffer) (x y x' y' : ℕ)
    → x < 280
    → x' < 280
    → pixel (set_pixel fb y x) x' y' ≡ (if y' == y && x' == x then 1 else pixel fb x' y')
unfolding set_pixel
set_pixel_lem fb x y x' y' hx hx' =
    let i = y' * 35 + x' / 8 in
    let k = 7 - x % 8 in
    let b = 7 - x' % 8 in
    let here : (y * 280 + x) / 8 ≡ y * 35 + x / 8 = omega arith in
    let test =
      ap (λ (q : ℕ). i == q) here
      ∙ same_place 35 y y' (x / 8) (x' / 8) (omega arith) (omega arith) in
    elim (Bool-cases ((y' == y) && (x' / 8 == x / 8))) [
      | inl t ↦
          rw (test, t)
            (bit_at-or (fb i) (1 <<< k) b
              ∙ ap (max (bit_at (fb i) b)) (single_bit_at k b (omega arith) (omega arith))
              ∙ joined (bit_at (fb i) b) x x' y y' (bit_at-lt (fb i) b) t)
      | inr f ↦ rw (test, f) (ground arith)
    ]
  where
    joined :
        (v x x' y y' : ℕ)
        → v < 2
        → (y' == y) && (x' / 8 == x / 8) ≡ true
        → max v (if 7 - x' % 8 == 7 - x % 8 then 1 else 0) ≡ (if y' == y && x' == x then 1 else v)
    joined v x x' y y' h t = ground arith

-- The pixels of a rectangle that pass a test.
abbrev pub inside : ℕ → ℕ → ℕ → ℕ → ℕ → ℕ → Bool
inside x0 columns y0 lines x y = leb x0 x && ltb x (x0 + columns) && leb y0 y && ltb y (y0 + lines)

-- One more pixel of a line, and one more line.
more_pixels :
    (v x left y x' y' : ℕ) (here there : Bool)
    → ((y' == y) && (x' == x) ≡ true → there ≡ here)
    → (if inside (x + 1) left y 1 x' y' && there
        then 1
        else (if here && (y' == y && x' == x) then 1 else v))
      ≡ (if inside x (suc left) y 1 x' y' && there then 1 else v)
more_pixels v x left y x' y' here there same = elim (Bool-cases ((y' == y) && (x' == x))) [
  | inl t ↦ ground (arith, same t)
  | inr f ↦ rw f (ground arith)
]

more_lines :
    (v x0 columns left y x y' : ℕ) (there : Bool)
    → (if inside x0 columns (y + 1) left x y' && there
        then 1
        else (if inside x0 columns y 1 x y' && there then 1 else v))
      ≡ (if inside x0 columns y (suc left) x y' && there then 1 else v)
more_lines v x0 columns left y x y' there = ground arith

module _ (test : ℕ → ℕ → Bool) where
  plot_one :
      (fb : Buffer) (x y x' y' : ℕ)
      → x < 280
      → x' < 280
      → pixel (if test x y then set_pixel fb y x else fb) x' y'
        ≡ (if test x y && (y' == y && x' == x) then 1 else pixel fb x' y')
  plot_one fb x y x' y' h hx = elim (Bool-cases (test x y)) [
    | inl t ↦ rw t (set_pixel_lem fb x y x' y' h hx)
    | inr f ↦ rw f refl
  ]

  plot_line_lem :
      (left : ℕ) (fb : Buffer) (y x x' y' : ℕ)
      → x + left ≤ 280
      → x' < 280
      → pixel (plot_line left test fb y x) x' y'
        ≡ (if inside x left y 1 x' y' && test x' y' then 1 else pixel fb x' y')
  unfolding plot_line
  plot_line_lem zero fb y x x' y' h hx = ground arith
  plot_line_lem (suc left) fb y x x' y' h hx =
      let fb' = (if test x y then set_pixel fb y x else fb) in
      plot_line_lem left fb' y (x + 1) x' y' (omega arith) hx
      ∙ ap (λ (v : ℕ). if inside (x + 1) left y 1 x' y' && test x' y' then 1 else v)
          (plot_one fb x y x' y' (omega arith) hx)
      ∙ more_pixels (pixel fb x' y') x left y x' y' (test x y) (test x' y') (same_test x y x' y')
    where
      same_test : (x y x' y' : ℕ) → (y' == y) && (x' == x) ≡ true → test x' y' ≡ test x y
      same_test x y x' y' t =
          let e : x' ≡ x = ground arith in let f : y' ≡ y = ground arith in λ i. test (e i) (f i)

  pub plot_lem :
      (left columns : ℕ) (fb : Buffer) (y x0 x y' : ℕ)
      → x0 + columns ≤ 280
      → x < 280
      → pixel (plot left columns test fb y x0) x y'
        ≡ (if inside x0 columns y left x y' && test x y' then 1 else pixel fb x y')
  unfolding plot
  plot_lem zero columns fb y x0 x y' h hx = ground arith
  plot_lem (suc left) columns fb y x0 x y' h hx =
      plot_lem left columns (plot_line columns test fb y x0) (y + 1) x0 x y' h hx
      ∙ ap (λ (v : ℕ). if inside x0 columns (y + 1) left x y' && test x y' then 1 else v)
          (plot_line_lem columns fb y x0 x y' h hx)
      ∙ more_lines (pixel fb x y') x0 columns left y x y' (test x y')
