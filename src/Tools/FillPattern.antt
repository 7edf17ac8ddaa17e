-- ===== src/Tools/FillPattern.antt =====
-- `fill_pattern` of kmod/p4_setmode.c: a picture in a framebuffer of 32-bit pixels.
use p4_hmd.Base.{ℕ, zero, suc, ◌+◌, ◌-◌, ◌*◌, ◌/◌, ◌%◌, ◌≤◌, ◌<◌, ◌≡◌, ◌∙◌, ap, arith}
use p4_hmd.Base.{Bool, true, Bool-cases, ◌&&◌, ◌||◌, ◌==◌, ltb, leb, if◌then◌else◌}
use p4_hmd.Base.{inl, inr}
use p4_hmd.Update.Word.{Buffer}
use p4_hmd.Rotation.Grid.{same_place}

-- The names that `fill_pattern` compares with; `other` is none of them, or no name.
pub data Picture : Type 0 where
  black white checker vstripes hstripes arrow other : Picture

abbrev pub white_pixel : ℕ
white_pixel = 0x00FFFFFF

abbrev pub black_pixel : ℕ
black_pixel = 0

-- `a - k <= x` and `x < a - k` of the source, where the difference may be negative.
abbrev pub from_edge : ℕ → ℕ → ℕ → Bool
from_edge a k x = leb a (x + k)

abbrev pub before_edge : ℕ → ℕ → ℕ → Bool
before_edge a k x = ltb (x + k) a

-- The arrow and its four corner marks.
unfoldable pub in_arrow : ℕ → ℕ → ℕ → ℕ → Bool
in_arrow width height x y =
    let m : ℕ = 8 in
    let in_tl = leb m x && ltb x (m + 24) && leb m y && ltb y (m + 24) in
    let in_tr = from_edge width (m + 48) x && before_edge width m x && leb m y && ltb y (m + 16) in
    let in_bl =
      leb m x && ltb x (m + 16) && from_edge height (m + 48) y && before_edge height m y in
    let in_br =
      from_edge width (m + 40) x
      && before_edge width m x
      && from_edge height (m + 40) y
      && before_edge height m y in
    let cx = width / 2 in
    let cy = height / 2 in
    let in_shaft = from_edge cx 64 x && ltb x cx && from_edge cy 8 y && ltb y (cy + 8) in
    let half_h = 32 - (x - cx) * 32 / 48 in
    let in_head = leb cx x && ltb x (cx + 48) && (from_edge cy half_h y && ltb y (cy + half_h)) in
    in_tl || in_tr || in_bl || in_br || in_shaft || in_head

unfoldable pub color : ℕ → ℕ → Picture → ℕ → ℕ → ℕ
color width height black x y = black_pixel
color width height white x y = white_pixel
color width height checker x y = if (x / 8 + y / 8) % 2 == 0 then black_pixel else white_pixel
color width height vstripes x y = if x / 8 % 2 == 0 then black_pixel else white_pixel
color width height hstripes x y = if y / 8 % 2 == 0 then black_pixel else white_pixel
color width height arrow x y = if in_arrow width height x y then black_pixel else white_pixel
color width height other x y = black_pixel

-- The loop over `x`, with `left` rounds to go; `buf` is an array of 32-bit words.
unfoldable pub fill_line : ℕ → Buffer → ℕ → ℕ → ℕ → Picture → ℕ → ℕ → Buffer
fill_line zero buf width height pitch pattern y x = buf
fill_line (suc left) buf width height pitch pattern y x =
    let buf' : Buffer = λ i. if i == y * pitch + x then color width height pattern x y else buf i in
    fill_line left buf' width height pitch pattern y (x + 1)

unfoldable pub fill_lines : ℕ → Buffer → ℕ → ℕ → ℕ → Picture → ℕ → Buffer
fill_lines zero buf width height pitch pattern y = buf
fill_lines (suc left) buf width height pitch pattern y =
    fill_lines left (fill_line width buf width height pitch pattern y 0) width height pitch pattern
      (y + 1)

unfoldable pub fill_pattern : Buffer → ℕ → ℕ → ℕ → Picture → Buffer
fill_pattern buf width height pitch_bytes pattern =
    fill_lines height buf width height (pitch_bytes / 4) pattern 0

module _ (width height pitch : ℕ) (pattern : Picture) where
  fill_line_lem :
      (left : ℕ) (buf : Buffer) (y x x' y' : ℕ)
      → x + left ≤ pitch
      → x' < pitch
      → fill_line left buf width height pitch pattern y x (y' * pitch + x') ≡ (
          if y' == y && leb x x' && ltb x' (x + left)
          then color width height pattern x' y'
          else buf (y' * pitch + x'))
  unfolding fill_line
  fill_line_lem zero buf y x x' y' h hx = ground arith
  fill_line_lem (suc left) buf y x x' y' h hx =
      let one =
        ap (λ (b : Bool). if b then color width height pattern x y else buf (y' * pitch + x'))
          (same_place pitch y y' x x' (omega arith) hx) in
      fill_line_lem left _ y (x + 1) x' y' (omega arith) hx
      ∙ ap
          (λ (v : ℕ).
            if y' == y && leb (x + 1) x' && ltb x' (x + 1 + left)
            then color width height pattern x' y'
            else v)
          one
      ∙ more left (buf (y' * pitch + x')) (color width height pattern x y)
          (color width height pattern x' y') x y x' y' (same x y x' y')
    where
      same :
          (x y x' y' : ℕ)
          → y' == y && x' == x ≡ true
          → color width height pattern x' y' ≡ color width height pattern x y
      same x y x' y' t =
          let e : x' ≡ x = ground arith in
          let f : y' ≡ y = ground arith in λ i. color width height pattern (e i) (f i)

      more :
          (left v here there x y x' y' : ℕ)
          → (y' == y && x' == x ≡ true → there ≡ here)
          → (if y' == y && leb (x + 1) x' && ltb x' (x + 1 + left)
              then there
              else (if y' == y && x' == x then here else v))
            ≡ (if y' == y && leb x x' && ltb x' (x + suc left) then there else v)
      more left v here there x y x' y' agree = elim (Bool-cases ((y' == y) && (x' == x))) [
        | inl t ↦ ground (arith, agree t)
        | inr f ↦ rw f (ground arith)
      ]

  fill_lines_lem :
      (left : ℕ) (buf : Buffer) (y x' y' : ℕ)
      → width ≤ pitch
      → x' < pitch
      → fill_lines left buf width height pitch pattern y (y' * pitch + x') ≡ (
          if ltb x' width && leb y y' && ltb y' (y + left)
          then color width height pattern x' y'
          else buf (y' * pitch + x'))
  unfolding fill_lines
  fill_lines_lem zero buf y x' y' h hx = ground arith
  fill_lines_lem (suc left) buf y x' y' h hx =
      fill_lines_lem left _ (y + 1) x' y' h hx
      ∙ ap
          (λ (v : ℕ).
            if ltb x' width && leb (y + 1) y' && ltb y' (y + 1 + left)
            then color width height pattern x' y'
            else v)
          (fill_line_lem width buf y 0 x' y' (omega arith) hx)
      ∙ more left (buf (y' * pitch + x')) (color width height pattern x' y') y x' y'
    where
      more :
          (left v there y x' y' : ℕ)
          → (if ltb x' width && leb (y + 1) y' && ltb y' (y + 1 + left)
              then there
              else (if y' == y && leb 0 x' && ltb x' (0 + width) then there else v))
            ≡ (if ltb x' width && leb y y' && ltb y' (y + suc left) then there else v)
      more left v there y x' y' = ground arith

-- Where a line of the framebuffer has room for the width: each word within the pitch is the color of
-- its pixel in the picture, if it lies in the width and the height, and as it was if not.
pub fill_pattern_lem :
    (buf : Buffer) (width height pitch_bytes : ℕ) (pattern : Picture) (x y : ℕ)
    → width ≤ pitch_bytes / 4
    → x < pitch_bytes / 4
    → fill_pattern buf width height pitch_bytes pattern (y * (pitch_bytes / 4) + x) ≡ (
        if ltb x width && ltb y height
        then color width height pattern x y
        else buf (y * (pitch_bytes / 4) + x))
unfolding fill_pattern
fill_pattern_lem buf width height pitch_bytes pattern x y h hx =
    fill_lines_lem width height (pitch_bytes / 4) pattern height buf 0 x y h hx ∙ ground arith
