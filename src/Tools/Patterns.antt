-- ===== src/Tools/Patterns.antt =====
-- The test patterns of kmod/p4_calibrate.c, drawn pixel by pixel.
pub mod Pixels
pub mod Letters
pub mod Shown
pub mod Bytes
use p4_hmd.Base.{ℕ, zero, suc, ◌+◌, ◌-◌, ◌*◌, ◌/◌, ◌%◌, ◌^◌, ◌<<<◌, bit_and, bit_or}
use p4_hmd.Base.{Bool, true, false, not, ◌&&◌, ◌==◌, ltb, if◌then◌else◌}
use p4_hmd.Update.Word.{Buffer}
use p4_hmd.Update.Encoder.{p4_width}
use p4_hmd.Pipe.Clip.{hw_width}

abbrev pub hw_height : ℕ
hw_height = p4_width

-- The names that `generate_pattern` knows; `unknown` is any other.
pub data Pattern : Type 0 where
  white black checker vstripes hstripes gradient text animate unknown : Pattern

-- `fb[byte_idx] |= (1 << bit_idx)` at a pixel.
unfoldable pub set_pixel : Buffer → ℕ → ℕ → Buffer
set_pixel fb y x =
    λ i. if i == (y * hw_width + x) / 8 then bit_or (fb i) (1 <<< (7 - x % 8)) else fb i

-- A loop over `x`, with `left` rounds to go, that sets the pixels of a line that pass a test.
unfoldable pub plot_line : ℕ → (ℕ → ℕ → Bool) → Buffer → ℕ → ℕ → Buffer
plot_line zero test fb y x = fb
plot_line (suc left) test fb y x =
    plot_line left test (if test x y then set_pixel fb y x else fb) y (x + 1)

-- A loop over `y` of such loops, each from `x0` on.
unfoldable pub plot : ℕ → ℕ → (ℕ → ℕ → Bool) → Buffer → ℕ → ℕ → Buffer
plot zero columns test fb y x0 = fb
plot (suc left) columns test fb y x0 =
    plot left columns test (plot_line columns test fb y x0) (y + 1) x0

-- `memset(fb + k, 0xFF, n)`
unfoldable pub set_bytes : ℕ → ℕ → Buffer → Buffer
set_bytes k n fb = λ i. if not (ltb i k) && ltb i (k + n) then 255 else fb i

-- The loop over `y` of the horizontal stripes.
unfoldable pub stripe_lines : ℕ → Buffer → ℕ → Buffer
stripe_lines zero fb y = fb
stripe_lines (suc left) fb y =
    stripe_lines left
      (if bit_and (y / 8) 1 == 1 then set_bytes (y * hw_width / 8) (hw_width / 8) fb else fb)
      (y + 1)

-- The loop over `col` of the text pattern; no cell passes the edges of the frame.
unfoldable pub text_cells : ℕ → Buffer → ℕ → ℕ → Buffer
text_cells zero fb row col = fb
text_cells (suc left) fb row col =
    text_cells left
      (if (row + col) % 3 == 0
        then fb
        else plot 12 6 (λ x y. ltb y hw_height && ltb x hw_width) fb (row * 16 + 2) (col * 8 + 1))
      row (col + 1)

unfoldable pub text_rows : ℕ → Buffer → ℕ → Buffer
text_rows zero fb row = fb
text_rows (suc left) fb row = text_rows left (text_cells (hw_width / 8) fb row 0) (row + 1)

-- The tests of the patterns that plot.
abbrev pub checker_test : ℕ → ℕ → Bool
checker_test x y = bit_and (x / 8 + y / 8) 1 == 1

abbrev pub vstripes_test : ℕ → ℕ → Bool
vstripes_test x y = bit_and (x / 8) 1 == 1

abbrev pub gradient_test : ℕ → ℕ → Bool
gradient_test x y = ltb (bit_and (bit_and x 7 * 32 + bit_and y 7 * 4) 255) (y * 256 / hw_height)

abbrev pub all_set : ℕ → ℕ → Bool
all_set x y = true

abbrev pub no_pixels : Buffer
no_pixels i = 0

-- `generate_pattern`, where `stripe_count` is the tool's option; neither it nor the frame is negative.
unfoldable pub generate_pattern : ℕ → Pattern → ℕ → Buffer
generate_pattern stripe_count white frame = set_bytes 0 (hw_width / 8 * hw_height) no_pixels
generate_pattern stripe_count black frame = no_pixels
generate_pattern stripe_count checker frame = plot hw_height hw_width checker_test no_pixels 0 0
generate_pattern stripe_count vstripes frame = plot hw_height hw_width vstripes_test no_pixels 0 0
generate_pattern stripe_count hstripes frame =
    let max_rows = stripe_count * 8 in
    stripe_lines (if ltb hw_height max_rows then hw_height else max_rows) no_pixels 0
generate_pattern stripe_count gradient frame = plot hw_height hw_width gradient_test no_pixels 0 0
generate_pattern stripe_count text frame = text_rows (hw_height / 16) no_pixels 0
generate_pattern stripe_count animate frame =
    let bar_x = frame * 8 % hw_width in
    let columns = (if ltb (bar_x + 32) hw_width then 32 else hw_width - bar_x) in
    plot hw_height columns all_set no_pixels 0 bar_x
generate_pattern stripe_count unknown frame = no_pixels
