-- ===== src/Tools/Patterns/Letters.antt =====
-- The letters of the text pattern.
use p4_hmd.Base.{ℕ, zero, suc, ◌+◌, ◌*◌, ◌/◌, ◌%◌, ◌≤◌, ◌<◌, ◌≡◌, refl, ◌∙◌, ap, arith}
use p4_hmd.Base.{Bool, true, false, Bool-cases, not, ◌&&◌, ◌==◌, ltb, leb, if◌then◌else◌}
use p4_hmd.Base.{inl, inr}
use p4_hmd.Update.Word.{Buffer}
use p4_hmd.Pipe.Clip.{hw_width}
use p4_hmd.Tools.Patterns.{text_cells, text_rows, plot, hw_height}
use p4_hmd.Tools.Patterns.Pixels.{pixel, inside, plot_lem}

-- A cell of 16 lines and 8 columns holds a letter of 12 by 6, and every third cell is empty.
abbrev pub letter : ℕ → ℕ → Bool
letter x y =
    not ((y / 16 + x / 8) % 3 == 0)
    && leb 2 (y % 16)
    && ltb (y % 16) 14
    && leb 1 (x % 8)
    && ltb (x % 8) 7

-- A letter's lines and columns, within the cell and from its edge.
letter_lines :
    (row y : ℕ)
    → leb (row * 16 + 2) y && ltb y (row * 16 + 2 + 12)
      ≡ (y / 16 == row) && (leb 2 (y % 16) && ltb (y % 16) 14)
letter_lines row y = ground arith

letter_columns :
    (col x : ℕ)
    → leb (col * 8 + 1) x && ltb x (col * 8 + 1 + 6)
      ≡ (x / 8 == col) && (leb 1 (x % 8) && ltb (x % 8) 7)
letter_columns col x = ground arith

and_assoc : (a b c d : Bool) → a && b && c && d ≡ (a && b) && (c && d)
and_assoc true true c d = refl
and_assoc true false c d = refl
and_assoc false b c d = refl

-- The tests of the columns and of the lines, put together.
joined :
    (columns lines p q la lb lc ld n : Bool)
    → columns ≡ q && (lc && ld)
    → lines ≡ p && (la && lb)
    → (p && q ≡ true → n ≡ true)
    → columns && lines ≡ (p && q && (n && la && lb && lc && ld))
joined columns lines true true la lb lc ld n e f g = ground (arith, g refl)
joined columns lines true false la lb lc ld n e f g = ground arith
joined columns lines false q la lb lc ld n e f g = ground arith

kept_cell :
    (row col x y : ℕ)
    → (row + col) % 3 == 0 ≡ false
    → y / 16 == row && x / 8 == col ≡ true
    → not ((y / 16 + x / 8) % 3 == 0) ≡ true
kept_cell row col x y f t = ground arith

in_frame : (x y : ℕ) → x < 280 → y < 720 → ltb y 720 && ltb x 280 ≡ true
in_frame x y hx hy = ground arith

and_true : (a : Bool) → a && true ≡ a
and_true true = refl
and_true false = refl

full_cell :
    (row col x y : ℕ)
    → x < 280
    → y < 720
    → (row + col) % 3 == 0 ≡ false
    → inside (col * 8 + 1) 6 (row * 16 + 2) 12 x y && (ltb y 720 && ltb x 280)
      ≡ (y / 16 == row && x / 8 == col && letter x y)
full_cell row col x y hx hy f =
    ap (λ (b : Bool). inside (col * 8 + 1) 6 (row * 16 + 2) 12 x y && b) (in_frame x y hx hy)
    ∙ and_true _
    ∙ and_assoc (leb (col * 8 + 1) x) (ltb x (col * 8 + 1 + 6)) (leb (row * 16 + 2) y)
        (ltb y (row * 16 + 2 + 12))
    ∙ joined _ _ (y / 16 == row) (x / 8 == col) (leb 2 (y % 16)) (ltb (y % 16) 14) (leb 1 (x % 8))
        (ltb (x % 8) 7) (not ((y / 16 + x / 8) % 3 == 0)) (letter_columns col x)
        (letter_lines row y) (kept_cell row col x y f)

-- One more cell of a row of letters.
text_cell :
    (fb : Buffer) (row col x y : ℕ)
    → col < 35
    → x < 280
    → y < 720
    → pixel
        (if (row + col) % 3 == 0
          then fb
          else plot 12 6 (λ x y. ltb y hw_height && ltb x hw_width) fb (row * 16 + 2) (col * 8 + 1))
        x
        y
      ≡ (if y / 16 == row && x / 8 == col && letter x y then 1 else pixel fb x y)
text_cell fb row col x y h hx hy = elim (Bool-cases ((row + col) % 3 == 0)) [
  | inl t ↦ rw t (ground arith)
  | inr f ↦ rw f (
      plot_lem (λ x y. ltb y hw_height && ltb x hw_width) 12 6 fb (row * 16 + 2) (col * 8 + 1) x y
        (omega arith) hx
      ∙ ap (λ (b : Bool). if b then 1 else pixel fb x y) (full_cell row col x y hx hy f))
]

more_cells :
    (v col left row x y : ℕ) (there : Bool)
    → (if y / 16 == row && leb (col + 1) (x / 8) && ltb (x / 8) (col + 1 + left) && there
        then 1
        else (if y / 16 == row && x / 8 == col && there then 1 else v))
      ≡ (if y / 16 == row && leb col (x / 8) && ltb (x / 8) (col + suc left) && there then 1 else v)
more_cells v col left row x y there = ground arith

text_cells_lem :
    (left : ℕ) (fb : Buffer) (row col x y : ℕ)
    → col + left ≤ 35
    → x < 280
    → y < 720
    → pixel (text_cells left fb row col) x y ≡ (
        if y / 16 == row && leb col (x / 8) && ltb (x / 8) (col + left) && letter x y
        then 1
        else pixel fb x y)
unfolding text_cells
text_cells_lem zero fb row col x y h hx hy = ground arith
text_cells_lem (suc left) fb row col x y h hx hy =
    text_cells_lem left _ row (col + 1) x y (omega arith) hx hy
    ∙ ap
        (λ (v : ℕ).
          if y / 16 == row && leb (col + 1) (x / 8) && ltb (x / 8) (col + 1 + left) && letter x y
          then 1
          else v)
        (text_cell fb row col x y (omega arith) hx hy)
    ∙ more_cells (pixel fb x y) col left row x y (letter x y)

more_rows :
    (v left row x y : ℕ) (there : Bool)
    → x < 280
    → (if leb (row + 1) (y / 16) && ltb (y / 16) (row + 1 + left) && there
        then 1
        else (if y / 16 == row && leb 0 (x / 8) && ltb (x / 8) (0 + 35) && there then 1 else v))
      ≡ (if leb row (y / 16) && ltb (y / 16) (row + suc left) && there then 1 else v)
more_rows v left row x y there hx = ground arith

pub text_rows_lem :
    (left : ℕ) (fb : Buffer) (row x y : ℕ)
    → x < 280
    → y < 720
    → pixel (text_rows left fb row) x y
      ≡ (if leb row (y / 16) && ltb (y / 16) (row + left) && letter x y then 1 else pixel fb x y)
unfolding text_rows
text_rows_lem zero fb row x y hx hy = ground arith
text_rows_lem (suc left) fb row x y hx hy =
    text_rows_lem left (text_cells 35 fb row 0) (row + 1) x y hx hy
    ∙ ap
        (λ (v : ℕ).
          if leb (row + 1) (y / 16) && ltb (y / 16) (row + 1 + left) && letter x y then 1 else v)
        (text_cells_lem 35 fb row 0 x y (omega arith) hx hy)
    ∙ more_rows (pixel fb x y) left row x y (letter x y) hx
