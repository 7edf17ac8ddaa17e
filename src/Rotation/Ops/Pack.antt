-- ===== src/Rotation/Ops/Pack.antt =====
-- `gather8_rot` as a sum of bytes, and the bytes that `scatter8_rot` stores.
use p4_hmd.Base.{ℕ, zero, suc, ◌+◌, ◌-◌, ◌*◌, ◌^◌, ◌≤◌, ◌<◌, ◌≡◌, refl, ◌∙◌, ap, arith}
use p4_hmd.Base.{◌<<<◌, bit_or, Bool, true, ◌==◌}
use native.Mathlib.Nat.{pow-suc, mul-le-mul_right}
use p4_hmd.Base.Bits.{bit_or_fields}
use p4_hmd.Base.BitAt.{bit_at, bit_at_above, bit_at_below}
use p4_hmd.Update.Word.{Buffer, IsBytes}
use p4_hmd.Update.Packet.{bitrev8}
use p4_hmd.Rotation.Ops.{gather8_rot}
use p4_hmd.Base.{all_below, all_below_at, same_number}

-- `BITREV8` turns a byte around.
abbrev reversed_at : ℕ → ℕ → Bool
reversed_at b x = bit_at (bitrev8 x) b == bit_at x (7 - b)

reversed_bits : all_below 256 (λ x. all_below 8 (λ b. reversed_at b x)) ≡ true
unfolding bitrev8
reversed_bits = refl

pub bitrev8_bit : (x b : ℕ) → x < 256 → b < 8 → bit_at (bitrev8 x) b ≡ bit_at x (7 - b)
bitrev8_bit x b hx hb = same_number _ _ (
    all_below_at 8 (λ c. reversed_at c x) b
      (all_below_at 256 (λ y. all_below 8 (λ c. reversed_at c y)) x reversed_bits hx) hb)

pub bitrev8-lt : (x : ℕ) → bitrev8 x < 256
unfolding bitrev8
bitrev8-lt x = omega arith

-- `n` bytes as a number, the first one highest.
abbrev pub pack : ℕ → Buffer → ℕ
pack zero f = 0
pack (suc n) f = f 0 * 2 ^ (8 * n) + pack n (λ j. f (suc j))

-- Bytes in fields of 8 bits, joined by `|`, are a sum.
or_bytes :
    (b0 b1 b2 b3 b4 b5 b6 b7 : ℕ)
    → b1 < 256
    → b2 < 256
    → b3 < 256
    → b4 < 256
    → b5 < 256
    → b6 < 256
    → b7 < 256
    → bit_or
        (bit_or
          (bit_or
            (bit_or
              (bit_or (bit_or (bit_or (b0 <<< 56) (b1 <<< 48)) (b2 <<< 40)) (b3 <<< 32))
              (b4 <<< 24))
            (b5 <<< 16))
          (b6 <<< 8))
        b7
      ≡ b0 * 2 ^ 56
        + b1 * 2 ^ 48
        + b2 * 2 ^ 40
        + b3 * 2 ^ 32
        + b4 * 2 ^ 24
        + b5 * 2 ^ 16
        + b6 * 2 ^ 8
        + b7
or_bytes b0 b1 b2 b3 b4 b5 b6 b7 h1 h2 h3 h4 h5 h6 h7 =
    let c1 = b0 * 2 ^ 8 + b1 in
    let c2 = c1 * 2 ^ 8 + b2 in
    let c3 = c2 * 2 ^ 8 + b3 in
    let c4 = c3 * 2 ^ 8 + b4 in
    let c5 = c4 * 2 ^ 8 + b5 in
    let c6 = c5 * 2 ^ 8 + b6 in
    let e1 : bit_or (b0 <<< 56) (b1 <<< 48) ≡ c1 <<< 48 =
      bit_or_fields 56 b0 (b1 <<< 48) (omega arith) ∙ omega arith in
    let e2 : bit_or (c1 <<< 48) (b2 <<< 40) ≡ c2 <<< 40 =
      bit_or_fields 48 c1 (b2 <<< 40) (omega arith) ∙ omega arith in
    let e3 : bit_or (c2 <<< 40) (b3 <<< 32) ≡ c3 <<< 32 =
      bit_or_fields 40 c2 (b3 <<< 32) (omega arith) ∙ omega arith in
    let e4 : bit_or (c3 <<< 32) (b4 <<< 24) ≡ c4 <<< 24 =
      bit_or_fields 32 c3 (b4 <<< 24) (omega arith) ∙ omega arith in
    let e5 : bit_or (c4 <<< 24) (b5 <<< 16) ≡ c5 <<< 16 =
      bit_or_fields 24 c4 (b5 <<< 16) (omega arith) ∙ omega arith in
    let e6 : bit_or (c5 <<< 16) (b6 <<< 8) ≡ c6 <<< 8 =
      bit_or_fields 16 c5 (b6 <<< 8) (omega arith) ∙ omega arith in
    rw (e1, e2, e3, e4, e5, e6) (bit_or_fields 8 c6 b7 (omega arith) ∙ omega arith)

pub gather8_rot-pack :
    (s : Buffer) (stride : ℕ) → gather8_rot s stride ≡ pack 8 (λ j. bitrev8 (s (j * stride)))
unfolding gather8_rot
gather8_rot-pack s stride =
    let b = λ (j : ℕ). bitrev8 (s (j * stride)) in
    let lt = λ (j : ℕ). bitrev8-lt (s (j * stride)) in
    or_bytes (b 0) (b 1) (b 2) (b 3) (b 4) (b 5) (b 6) (b 7) (lt 1) (lt 2) (lt 3) (lt 4) (lt 5)
      (lt 6) (lt 7)
    ∙ omega arith

eight_more : (n : ℕ) → 2 ^ (8 * suc n) ≡ 2 ^ (8 * n) * 256
eight_more n =
    let k = 8 * n in
    let e : 8 * suc n ≡ suc (suc (suc (suc (suc (suc (suc (suc k))))))) = omega arith in
    ap (λ (m : ℕ). 2 ^ m) e
    ∙ omega (
      arith,
      pow-suc 2 k,
      pow-suc 2 (suc k),
      pow-suc 2 (suc (suc k)),
      pow-suc 2 (suc (suc (suc k))),
      pow-suc 2 (suc (suc (suc (suc k)))),
      pow-suc 2 (suc (suc (suc (suc (suc k))))),
      pow-suc 2 (suc (suc (suc (suc (suc (suc k)))))),
      pow-suc 2 (suc (suc (suc (suc (suc (suc (suc k))))))),
    )

last_byte_le : (x : ℕ) → x < 256 → x ≤ 255
last_byte_le x h = omega arith

pack-lt : (n : ℕ) (f : Buffer) → IsBytes f → pack n f < 2 ^ (8 * n)
pack-lt zero f h = omega arith
pack-lt (suc n) f h = omega (
  arith,
  eight_more n,
  pack-lt n (λ j. f (suc j)) (λ j. h (suc j)),
  mul-le-mul_right (2 ^ (8 * n)) (last_byte_le (f 0) (h 0)),
)

-- Bit `b` of byte `j`.
pub pack_bit :
    (n : ℕ) (f : Buffer) (j b : ℕ)
    → IsBytes f
    → j < n
    → b < 8
    → bit_at (pack n f) (b + 8 * (n - 1 - j)) ≡ bit_at (f j) b
pack_bit zero f j b h lt hb = absurd (omega arith)
pack_bit (suc n) f zero b h lt hb =
    let same : suc n - 1 - 0 ≡ n = omega arith in
    rw same (bit_at_above (8 * n) (f 0) (pack n (λ j. f (suc j))) b (pack-lt n _ (λ j. h (suc j))))
pack_bit (suc n) f (suc j) b h lt hb =
    let same : suc n - 1 - suc j ≡ n - 1 - j = omega arith in
    rw same (
      bit_at_below (8 * n) (f 0) (pack n (λ k. f (suc k))) (b + 8 * (n - 1 - j)) (omega arith)
      ∙ pack_bit n (λ k. f (suc k)) j b (λ k. h (suc k)) (omega arith) hb)

pub gather8_rot-lt : (s : Buffer) (stride : ℕ) → gather8_rot s stride < 2 ^ 64
gather8_rot-lt s stride =
    rw (gather8_rot-pack s stride)
      (pack-lt 8 (λ j. bitrev8 (s (j * stride))) (λ j. bitrev8-lt (s (j * stride))))
