-- ===== src/Tools/Patterns/Shown.antt =====
-- Each test pattern lights the pixels that its name says.
use p4_hmd.Base.{ℕ, zero, suc, ◌+◌, ◌-◌, ◌*◌, ◌/◌, ◌%◌, ◌<◌, ◌≡◌, refl, ◌∙◌, ap, arith}
use p4_hmd.Base.{Bool, true, false, Bool-cases, not, ◌&&◌, ◌==◌, ltb, leb, if◌then◌else◌}
use p4_hmd.Base.{inl, inr, bit_and, all_below, all_below_at, same_number}
use p4_hmd.Base.BitAt.{bit_at}
use p4_hmd.Update.Word.{Buffer}
use p4_hmd.Driver.State.{bit}
use p4_hmd.Pipe.Clip.{hw_width}
use p4_hmd.Tools.Patterns.{
  Pattern, white, black, checker, vstripes, hstripes, gradient, text, animate, unknown, set_bytes,
  stripe_lines, checker_test, vstripes_test, gradient_test, all_set, no_pixels, generate_pattern,
}
use p4_hmd.Tools.Patterns.Letters.{letter, text_rows_lem}
use p4_hmd.Tools.Patterns.Pixels.{pixel, plot_lem}

-- Whether a pattern lights a pixel.
abbrev pub lights : ℕ → Pattern → ℕ → ℕ → ℕ → Bool
lights stripe_count white frame x y = true
lights stripe_count black frame x y = false
lights stripe_count checker frame x y = bit_and (x / 8 + y / 8) 1 == 1
lights stripe_count vstripes frame x y = bit_and (x / 8) 1 == 1
lights stripe_count hstripes frame x y = ltb y (stripe_count * 8) && bit_and (y / 8) 1 == 1
lights stripe_count gradient frame x y =
    ltb (bit_and (bit_and x 7 * 32 + bit_and y 7 * 4) 255) (y * 256 / 720)
lights stripe_count text frame x y = letter x y
lights stripe_count animate frame x y = leb (frame * 8 % 280) x && ltb x (frame * 8 % 280 + 32)
lights stripe_count unknown frame x y = false

ones : all_below 8 (λ b. bit_at 255 b == 1) ≡ true
ones = refl

one_at : (b : ℕ) → b < 8 → bit_at 255 b ≡ 1
one_at b h = same_number _ _ (all_below_at 8 (λ c. bit_at 255 c == 1) b ones h)

dark : (x y : ℕ) → pixel no_pixels x y ≡ 0
dark x y = zeros (7 - x % 8)
  where
    zeros : (b : ℕ) → bit_at 0 b ≡ 0
    zeros zero = refl
    zeros (suc b) = zeros b

set_bytes_lem :
    (lines y x y' : ℕ) (fb : Buffer)
    → x < 280
    → pixel (set_bytes (y * 35) (35 * lines) fb) x y'
      ≡ (if leb y y' && ltb y' (y + lines) then 1 else pixel fb x y')
unfolding set_bytes
set_bytes_lem lines y x y' fb hx = elim (Bool-cases (leb y y' && ltb y' (y + lines))) [
  | inl t ↦
      let test : not (ltb (y' * 35 + x / 8) (y * 35)) && ltb (y' * 35 + x / 8) (y * 35 + 35 * lines)
          ≡ true =
        ground arith in
      rw (t, test) (one_at (7 - x % 8) (omega arith))
  | inr f ↦
      let test : not (ltb (y' * 35 + x / 8) (y * 35)) && ltb (y' * 35 + x / 8) (y * 35 + 35 * lines)
          ≡ false =
        ground arith in
      rw (f, test) refl
]

-- One more line of the stripes.
stripe_line :
    (fb : Buffer) (y x y' : ℕ)
    → x < 280
    → pixel
        (if bit_and (y / 8) 1 == 1 then set_bytes (y * hw_width / 8) (hw_width / 8) fb else fb)
        x
        y'
      ≡ (if bit_and (y / 8) 1 == 1 && y' == y then 1 else pixel fb x y')
stripe_line fb y x y' hx = elim (Bool-cases (bit_and (y / 8) 1 == 1)) [
  | inl t ↦
      let start : y * 280 / 8 ≡ y * 35 = omega arith in
      rw (t, start) (set_bytes_lem 1 y x y' fb hx ∙ one_line y y' (pixel fb x y'))
  | inr f ↦ rw f refl
]
  where
    one_line :
        (y y' v : ℕ) → (if leb y y' && ltb y' (y + 1) then 1 else v) ≡ (if y' == y then 1 else v)
    one_line y y' v = ground arith

more_stripes :
    (v y left y' : ℕ) (here there : Bool)
    → ((y' == y) ≡ true → there ≡ here)
    → (if leb (y + 1) y' && ltb y' (y + 1 + left) && there
        then 1
        else (if here && y' == y then 1 else v))
      ≡ (if leb y y' && ltb y' (y + suc left) && there then 1 else v)
more_stripes v y left y' here there same = elim (Bool-cases (y' == y)) [
  | inl t ↦ ground (arith, same t)
  | inr f ↦ rw f (ground arith)
]

stripe_lines_lem :
    (left : ℕ) (fb : Buffer) (y x y' : ℕ)
    → x < 280
    → pixel (stripe_lines left fb y) x y'
      ≡ (if leb y y' && ltb y' (y + left) && bit_and (y' / 8) 1 == 1 then 1 else pixel fb x y')
unfolding stripe_lines
stripe_lines_lem zero fb y x y' hx = ground arith
stripe_lines_lem (suc left) fb y x y' hx =
    stripe_lines_lem left _ (y + 1) x y' hx
    ∙ ap
        (λ (v : ℕ).
          if leb (y + 1) y' && ltb y' (y + 1 + left) && bit_and (y' / 8) 1 == 1 then 1 else v)
        (stripe_line fb y x y' hx)
    ∙ more_stripes (pixel fb x y') y left y' (bit_and (y / 8) 1 == 1) (bit_and (y' / 8) 1 == 1)
        (λ t. ap (λ (q : ℕ). bit_and (q / 8) 1 == 1) (same_number y' y t))

-- Every pattern of the calibration tool, at each pixel of the display: it is lit exactly if the pattern
-- lights it, whatever the number of stripes and the frame of the animation.
pub generate_pattern-lights :
    (stripe_count : ℕ) (pattern : Pattern) (frame x y : ℕ)
    → x < 280
    → y < 720
    → pixel (generate_pattern stripe_count pattern frame) x y
      ≡ bit (lights stripe_count pattern frame x y)
unfolding generate_pattern
generate_pattern-lights n white frame x y hx hy =
    set_bytes_lem 720 0 x y no_pixels hx ∙ ground arith
generate_pattern-lights n black frame x y hx hy = dark x y
generate_pattern-lights n checker frame x y hx hy =
    plot_lem checker_test 720 280 no_pixels 0 0 x y (omega arith) hx ∙ rw (dark x y) (ground arith)
generate_pattern-lights n vstripes frame x y hx hy =
    plot_lem vstripes_test 720 280 no_pixels 0 0 x y (omega arith) hx ∙ rw (dark x y) (ground arith)
generate_pattern-lights n hstripes frame x y hx hy =
    stripe_lines_lem _ no_pixels 0 x y hx ∙ rw (dark x y) (ground arith)
generate_pattern-lights n gradient frame x y hx hy =
    plot_lem gradient_test 720 280 no_pixels 0 0 x y (omega arith) hx ∙ rw (dark x y) (ground arith)
generate_pattern-lights n text frame x y hx hy =
    text_rows_lem 45 no_pixels 0 x y hx hy ∙ rw (dark x y) (ground arith)
generate_pattern-lights n animate frame x y hx hy =
    plot_lem all_set 720 _ no_pixels 0 (frame * 8 % 280) x y (ground arith) hx
    ∙ rw (dark x y) (ground arith)
generate_pattern-lights n unknown frame x y hx hy = dark x y
