-- ===== src/Examples/Machine.antt =====
-- Vectors of two 64-bit lanes, and a conversion to one bit per pixel, with the laws that the theorems
-- ask for.
use native.Mathlib.Nat.{
  mul-add-div_right, mul-add-mod_self_right, div-eq_of_lt, pow-suc, mod-eq_of_lt,
}
use p4_hmd.Base.{ℕ, zero, suc, ◌+◌, ◌-◌, ◌*◌, ◌/◌, ◌%◌, ◌^◌, ◌<◌, ◌≤◌, ◌≡◌, refl, ◌∙◌, arith}
use p4_hmd.Base.{u8, u64, ◌<<<◌, ◌>>>◌, bit_and, bit_xor, Bool, true, false, ◌&&◌, ltb, if_ind}
use p4_hmd.Base.{if◌then◌else◌, ◌⊎◌, Option}
use p4_hmd.Base.BitAt.{bit_at}
use p4_hmd.Update.Word.{Buffer, IsBytes}
use p4_hmd.Driver.State.{bit}
use p4_hmd.Rotation.Simd.{Neon, from_bytes}
use p4_hmd.Pipe.Clip.{Mono, Pixels, Rect, line_bytes, pitch_or}

abbrev pub lane : ℕ × ℕ → ℕ → ℕ
lane x zero = x.0
lane x (suc i) = x.1

-- A law of both lanes.
pub lanes : (f : ℕ × ℕ) (g : ℕ → ℕ) → f.0 ≡ g 0 → f.1 ≡ g 1 → (i : ℕ) → i < 2 → lane f i ≡ g i
lanes f g p q zero h = p
lanes f g p q (suc zero) h = q
lanes f g p q (suc (suc i)) h = absurd (omega arith)

pub byte_of :
    (x : ℕ × ℕ) (i j : ℕ)
    → j < 8
    → u8 (lane x ((8 * i + j) / 8) >>> (8 * ((8 * i + j) % 8))) ≡ u8 (lane x i >>> (8 * j))
byte_of x i j h =
    let e : (8 * i + j) / 8 ≡ i = omega arith in
    let f : (8 * i + j) % 8 ≡ j = omega arith in rw (e, f) refl

pub turned_byte :
    (b : ℕ → ℕ) (i j : ℕ)
    → j < 8
    → b (8 * ((8 * i + j) / 8) + (7 - (8 * i + j) % 8)) ≡ b (8 * i + (7 - j))
turned_byte b i j h =
    let e : (8 * i + j) / 8 ≡ i = omega arith in
    let f : (8 * i + j) % 8 ≡ j = omega arith in rw (e, f) refl

abbrev pub pairs : Neon
pairs = record {
  U64x2 = ℕ × ℕ;
  U64x1 = ℕ;
  U8x16 = ℕ → ℕ;
  U8x8 = ℕ → ℕ;
  vdupq_n_u64 = λ n. (u64 n, u64 n);
  vcreate_u64 = λ n. u64 n;
  vcombine_u64 = λ a b. (a, b);
  vshrq_n_u64 = λ x n. (x.0 >>> n, x.1 >>> n);
  vshlq_n_u64 = λ x n. (u64 (x.0 <<< n), u64 (x.1 <<< n));
  vandq_u64 = λ x y. (bit_and x.0 y.0, bit_and x.1 y.1);
  veorq_u64 = λ x y. (bit_xor x.0 y.0, bit_xor x.1 y.1);
  vreinterpretq_u8_u64 = λ x k. u8 (lane x (k / 8) >>> (8 * (k % 8)));
  vreinterpretq_u64_u8 = λ b. (from_bytes (λ j. b (8 * 0 + j)), from_bytes (λ j. b (8 * 1 + j)));
  vrev64q_u8 = λ b k. b (8 * (k / 8) + (7 - k % 8));
  vreinterpret_u8_u64 = λ x k. u8 (x >>> (8 * k));
  vreinterpret_u64_u8 = λ b. from_bytes b;
  vrev64_u8 = λ b k. b (7 - k);
  vgetq_lane_u64 = lane;
  vget_lane_u64 = λ x i. x;
  vgetq_lane_u8 = λ b k. b k;
  vget_lane_u8 = λ b k. b k;
  lane_dup = λ n. lanes (u64 n, u64 n) (λ i. u64 n) refl refl;
  lane_create = λ n. refl;
  lane_combine_low = λ a b. refl;
  lane_combine_high = λ a b. refl;
  lane_shr = λ x n. lanes (x.0 >>> n, x.1 >>> n) (λ i. lane x i >>> n) refl refl;
  lane_shl = λ x n. lanes (u64 (x.0 <<< n), u64 (x.1 <<< n)) (λ i. u64 (lane x i <<< n)) refl refl;
  lane_and = λ x y.
      lanes (bit_and x.0 y.0, bit_and x.1 y.1) (λ i. bit_and (lane x i) (lane y i)) refl refl;
  lane_xor = λ x y.
      lanes (bit_xor x.0 y.0, bit_xor x.1 y.1) (λ i. bit_xor (lane x i) (lane y i)) refl refl;
  byte_lane = λ x i j hi hj. byte_of x i j hj;
  lane_bytes = λ b.
      lanes (from_bytes (λ j. b (8 * 0 + j)), from_bytes (λ j. b (8 * 1 + j)))
        (λ i. from_bytes (λ j. b (8 * i + j))) refl refl;
  rev_lane = λ b i j hi hj. turned_byte b i j hj;
  byte_lane_single = λ x j h. refl;
  lane_bytes_single = λ b. refl;
  rev_lane_single = λ b j h. refl;
}

-- The first `n` bits as a number, the lowest first.
abbrev pub from_bits : ℕ → (ℕ → Bool) → ℕ
from_bits zero q = 0
from_bits (suc n) q = bit (q 0) + 2 * from_bits n (λ j. q (suc j))

bit-lt : (b : Bool) → bit b < 2
bit-lt b = ground arith

bit_at-from_bits : (n : ℕ) (q : ℕ → Bool) (j : ℕ) → j < n → bit_at (from_bits n q) j ≡ bit (q j)
bit_at-from_bits zero q j h = absurd (omega arith)
bit_at-from_bits (suc n) q zero h = omega (arith, bit-lt (q 0))
bit_at-from_bits (suc n) q (suc j) h =
    let half : from_bits (suc n) q / 2 ≡ from_bits n (λ j. q (suc j)) =
      omega (arith, bit-lt (q 0)) in
    rw half (bit_at-from_bits n (λ j. q (suc j)) j (omega arith))

from_bits-lt : (n : ℕ) (q : ℕ → Bool) → from_bits n q < 2 ^ n
from_bits-lt zero q = omega arith
from_bits-lt (suc n) q = omega (arith, pow-suc 2 n, bit-lt (q 0), from_bits-lt n (λ j. q (suc j)))

-- The pixels of byte `b` of line `l`, none beyond the clip.
abbrev pub line_bits : Pixels → Rect → ℕ → ℕ → ℕ → Bool
line_bits px clip l b j =
    ltb (8 * b + j) (clip.x2 - clip.x1) && px (clip.x1 + (8 * b + j)) (clip.y1 + l)

abbrev pub line_byte : Pixels → Rect → ℕ → ℕ → ℕ
line_byte px clip l b = from_bits 8 (line_bits px clip l b)

abbrev pub convert : Buffer → Option ℕ → Pixels → Rect → Buffer
convert dst pitch px clip = λ i.
    let p = pitch_or pitch clip in
    if ltb (i / p) (clip.y2 - clip.y1) && ltb (i % p) (line_bytes clip)
    then line_byte px clip (i / p) (i % p)
    else dst i

place : (p l b : ℕ) → b < p → ((l * p + b) / p ≡ l) × ((l * p + b) % p ≡ b)
place p l b h =
    let first : b / p ≡ 0 = div-eq_of_lt h in
    let pos : 0 < p = omega arith in
    let div : (l * p + b) / p ≡ l + b / p = mul-add-div_right pos l b in
    (div ∙ omega arith, mul-add-mod_self_right l p b ∙ mod-eq_of_lt h)

pub convert_pixel :
    (dst : Buffer) (pitch : Option ℕ) (px : Pixels) (clip : Rect) (l b j : ℕ)
    → line_bytes clip ≤ pitch_or pitch clip
    → l < clip.y2 - clip.y1
    → 8 * b + j < clip.x2 - clip.x1
    → j < 8
    → bit_at (convert dst pitch px clip (l * pitch_or pitch clip + b)) j
      ≡ bit (px (clip.x1 + (8 * b + j)) (clip.y1 + l))
convert_pixel dst pitch px clip l b j fits hl hb hj =
    let (row, column) = place (pitch_or pitch clip) l b (omega arith) in
    let first : ltb l (clip.y2 - clip.y1) ≡ true = ground arith in
    let second : ltb b (line_bytes clip) ≡ true = ground arith in
    let third : ltb (8 * b + j) (clip.x2 - clip.x1) ≡ true = ground arith in
    rw (row, column, first, second)
      (bit_at-from_bits 8 (line_bits px clip l b) j hj ∙ rw third refl)

pub convert_outside :
    (dst : Buffer) (pitch : Option ℕ) (px : Pixels) (clip : Rect) (l b : ℕ)
    → line_bytes clip ≤ pitch_or pitch clip
    → b < pitch_or pitch clip
    → (clip.y2 - clip.y1 ≤ l) ⊎ (line_bytes clip ≤ b)
    → convert dst pitch px clip (l * pitch_or pitch clip + b) ≡ dst (l * pitch_or pitch clip + b)
convert_outside dst pitch px clip l b fits hb out =
    let (row, column) = place (pitch_or pitch clip) l b hb in
    let no : ltb l (clip.y2 - clip.y1) && ltb b (line_bytes clip) ≡ false = ground arith in
    rw (row, column, no) refl

pub convert-IsBytes :
    (dst : Buffer) (pitch : Option ℕ) (px : Pixels) (clip : Rect)
    → IsBytes dst
    → IsBytes (convert dst pitch px clip)
convert-IsBytes dst pitch px clip h i =
    let p = pitch_or pitch clip in
    if_ind (λ v. v < 256) (ltb (i / p) (clip.y2 - clip.y1) && ltb (i % p) (line_bytes clip)) _ _
      (λ t. from_bits-lt 8 (line_bits px clip (i / p) (i % p))) (λ f. h i)

abbrev pub plain_mono : Mono
plain_mono = record {
  to_mono = convert;
  to_mono_pixel = convert_pixel;
  to_mono_outside = convert_outside;
  to_mono-IsBytes = convert-IsBytes;
}
