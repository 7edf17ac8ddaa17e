-- ===== src/Tools/Patterns/Bytes.antt =====
-- The patterns are buffers of bytes.
use native.Mathlib.Nat.{pow-suc, pow-le-pow_right}
use p4_hmd.Base.{◌≡◌, ℕ, zero, suc, ◌+◌, ◌-◌, ◌/◌, ◌%◌, ◌^◌, ◌<◌, arith, bit_or, ◌<<<◌}
use p4_hmd.Base.{Bool, true, false, if◌then◌else◌}
use p4_hmd.Base.Bits.{bit_or_step}
use p4_hmd.Update.Word.{Buffer, IsBytes}
use p4_hmd.Tools.Patterns.{
  Pattern, white, black, checker, vstripes, hstripes, gradient, text, animate, unknown, set_pixel,
  plot_line, plot, set_bytes, stripe_lines, text_cells, text_rows, generate_pattern, hw_width,
}

bit_or-lt : (k x y : ℕ) → x < 2 ^ k → y < 2 ^ k → bit_or x y < 2 ^ k
bit_or-lt zero x y hx hy =
    let zx : x ≡ 0 = omega arith in let zy : y ≡ 0 = omega arith in rw (zx, zy) (omega arith)
bit_or-lt (suc k) x y hx hy = ground (
  arith,
  bit_or_step x y,
  bit_or-lt k (x / 2) (y / 2) (omega (arith, pow-suc 2 k)) (omega (arith, pow-suc 2 k)),
  pow-suc 2 k,
)

if_IsBytes : (b : Bool) (f g : Buffer) → IsBytes f → IsBytes g → IsBytes (if b then f else g)
if_IsBytes true f g h k = h
if_IsBytes false f g h k = k

shift-lt : (x : ℕ) → 1 <<< (7 - x % 8) < 256
shift-lt x =
    omega (arith, pow-le-pow_right {n = 2} (omega arith) {i = 7 - x % 8} {j = 7} (omega arith))

set_pixel-IsBytes : (fb : Buffer) (y x : ℕ) → IsBytes fb → IsBytes (set_pixel fb y x)
unfolding set_pixel
set_pixel-IsBytes fb y x h j =
    ground (arith, h j, bit_or-lt 8 (fb j) (1 <<< (7 - x % 8)), shift-lt x)

plot_line-IsBytes :
    (left : ℕ) (test : ℕ → ℕ → Bool) (fb : Buffer) (y x : ℕ)
    → IsBytes fb
    → IsBytes (plot_line left test fb y x)
unfolding plot_line
plot_line-IsBytes zero test fb y x h = h
plot_line-IsBytes (suc left) test fb y x h =
    plot_line-IsBytes left test _ y (x + 1)
      (if_IsBytes (test x y) _ _ (set_pixel-IsBytes fb y x h) h)

plot-IsBytes :
    (left columns : ℕ) (test : ℕ → ℕ → Bool) (fb : Buffer) (y x : ℕ)
    → IsBytes fb
    → IsBytes (plot left columns test fb y x)
unfolding plot
plot-IsBytes zero columns test fb y x h = h
plot-IsBytes (suc left) columns test fb y x h =
    plot-IsBytes left columns test _ (y + 1) x (plot_line-IsBytes columns test fb y x h)

set_bytes-IsBytes : (k n : ℕ) (fb : Buffer) → IsBytes fb → IsBytes (set_bytes k n fb)
unfolding set_bytes
set_bytes-IsBytes k n fb h j = ground (arith, h j)

stripe_lines-IsBytes :
    (left : ℕ) (fb : Buffer) (y : ℕ) → IsBytes fb → IsBytes (stripe_lines left fb y)
unfolding stripe_lines
stripe_lines-IsBytes zero fb y h = h
stripe_lines-IsBytes (suc left) fb y h =
    stripe_lines-IsBytes left _ (y + 1) (if_IsBytes _ _ _ (set_bytes-IsBytes _ _ fb h) h)

text_cells-IsBytes :
    (left : ℕ) (fb : Buffer) (row col : ℕ) → IsBytes fb → IsBytes (text_cells left fb row col)
unfolding text_cells
text_cells-IsBytes zero fb row col h = h
text_cells-IsBytes (suc left) fb row col h =
    text_cells-IsBytes left _ row (col + 1) (if_IsBytes _ _ _ h (plot-IsBytes 12 6 _ fb _ _ h))

text_rows-IsBytes :
    (left : ℕ) (fb : Buffer) (row : ℕ) → IsBytes fb → IsBytes (text_rows left fb row)
unfolding text_rows
text_rows-IsBytes zero fb row h = h
text_rows-IsBytes (suc left) fb row h =
    text_rows-IsBytes left _ (row + 1) (text_cells-IsBytes (hw_width / 8) fb row 0 h)

pub generate_pattern-IsBytes :
    (stripe_count : ℕ) (pattern : Pattern) (frame : ℕ)
    → IsBytes (generate_pattern stripe_count pattern frame)
unfolding generate_pattern
generate_pattern-IsBytes n white frame = set_bytes-IsBytes 0 _ _ (λ j. omega arith)
generate_pattern-IsBytes n black frame = λ j. omega arith
generate_pattern-IsBytes n checker frame = plot-IsBytes _ _ _ _ 0 0 (λ j. omega arith)
generate_pattern-IsBytes n vstripes frame = plot-IsBytes _ _ _ _ 0 0 (λ j. omega arith)
generate_pattern-IsBytes n hstripes frame = stripe_lines-IsBytes _ _ 0 (λ j. omega arith)
generate_pattern-IsBytes n gradient frame = plot-IsBytes _ _ _ _ 0 0 (λ j. omega arith)
generate_pattern-IsBytes n text frame = text_rows-IsBytes _ _ 0 (λ j. omega arith)
generate_pattern-IsBytes n animate frame = plot-IsBytes _ _ _ _ 0 _ (λ j. omega arith)
generate_pattern-IsBytes n unknown frame = λ j. omega arith
