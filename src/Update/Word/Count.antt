-- ===== src/Update/Word/Count.antt =====
-- `LZB` and `TZB` count whole zero bytes from the low and the high end of a word.
use native.Mathlib.Nat.{pow-suc}
use native.Mathlib.Decide.{dec_lt}
use p4_hmd.Base.Bits.{mul-two-pow-suc}
use p4_hmd.Base.{ℕ, zero, suc, ◌+◌, ◌*◌, ◌/◌, ◌%◌, ◌^◌, ◌≤◌, ◌<◌, ◌≡◌, refl, ap, arith}
use p4_hmd.Base.{true, false, ◌==◌}
use p4_hmd.Update.Word.{Buffer, IsBytes, bytes_value, ctz, clz, lzb, tzb}

-- The zero bytes at the low addresses of `d[0..n)`.
abbrev pub lead : ℕ → Buffer → ℕ
lead zero d = 0
lead (suc n) d = elim (d 0 == 0) [ true ↦ suc (lead n (λ j. d (suc j))) | false ↦ 0 ]

-- The zero bytes at the high addresses of `d[0..n)`.
abbrev pub trail : ℕ → Buffer → ℕ
trail zero d = 0
trail (suc n) d = elim (d n == 0) [ true ↦ suc (trail n d) | false ↦ 0 ]

-- `m + k`, with `m` taken apart first.
abbrev plus : ℕ → ℕ → ℕ
plus zero k = k
plus (suc m) k = suc (plus m k)

-- Eight bits to a byte.
abbrev width : ℕ → ℕ
width zero = 0
width (suc n) = plus 8 (width n)

ctz_step_even : (k x y : ℕ) → x ≡ 2 * y → ctz (suc k) x ≡ suc (ctz k y)
unfolding ctz
ctz_step_even k x y e = let h : x / 2 ≡ y = omega arith in rw (← h) (ground arith)

ctz_step_odd : (k x y : ℕ) → x ≡ 2 * y + 1 → ctz (suc k) x ≡ 0
unfolding ctz
ctz_step_odd k x y e = ground arith

clz_step : (k x : ℕ) → x < 2 ^ k → clz (suc k) x ≡ suc (clz k x)
unfolding clz
clz_step k x h = ground arith

clz_stop : (k x : ℕ) → 2 ^ k ≤ x → clz (suc k) x ≡ 0
unfolding clz
clz_stop k x h = ground arith

ctz_shift : (m k x : ℕ) → ctz (plus m k) (x * 2 ^ m) ≡ m + ctz k x
ctz_shift zero k x = ground arith
ctz_shift (suc m) k x = omega (
  arith,
  ctz_step_even (plus m k) (x * 2 ^ suc m) (x * 2 ^ m) (mul-two-pow-suc x m),
  ctz_shift m k x,
)

ctz-lt : (m k x b : ℕ) → 0 < b → b < 2 ^ m → ctz (plus m k) (x * 2 ^ m + b) < m
ctz-lt zero k x b p h = absurd (omega arith)
ctz-lt (suc m) k x b p h = elim (dec_lt 0 (b % 2)) [
  | yes odd ↦ omega (
    arith,
    ctz_step_odd (plus m k) (x * 2 ^ suc m + b) (x * 2 ^ m + b / 2)
        (omega (arith, mul-two-pow-suc x m)),
  )
  | no even ↦ omega (
    arith,
    ctz_step_even (plus m k) (x * 2 ^ suc m + b) (x * 2 ^ m + b / 2)
        (omega (arith, mul-two-pow-suc x m)),
    ctz-lt m k x (b / 2) (omega arith) (omega (arith, pow-suc 2 m)),
  )
]

lt-pow_plus : (m k x : ℕ) → x < 2 ^ k → x < 2 ^ plus m k
lt-pow_plus zero k x h = h
lt-pow_plus (suc m) k x h = omega (arith, lt-pow_plus m k x h, pow-suc 2 (plus m k))

clz_shift : (m k x : ℕ) → x < 2 ^ k → clz (plus m k) x ≡ m + clz k x
clz_shift zero k x h = omega arith
clz_shift (suc m) k x h =
    omega (arith, clz_step (plus m k) x (lt-pow_plus m k x h), clz_shift m k x h)

clz-lt : (m k x : ℕ) → 2 ^ k ≤ x → 0 < m → clz (plus m k) x < m
clz-lt zero k x h p = elim p [ ]
clz-lt (suc zero) k x h p = omega (arith, clz_stop k x h)
clz-lt (suc (suc m)) k x h p = elim (dec_lt x (2 ^ plus (suc m) k)) [
  | yes q ↦ omega (arith, clz_step (plus (suc m) k) x q, clz-lt (suc m) k x h (omega arith))
  | no q ↦ omega (arith, clz_stop (plus (suc m) k) x (omega arith))
]

pow_width : (n : ℕ) → 2 ^ width (suc n) ≡ 256 * 2 ^ width n
pow_width n =
    let w = width n in
    omega (
      arith,
      pow-suc 2 (plus 7 w),
      pow-suc 2 (plus 6 w),
      pow-suc 2 (plus 5 w),
      pow-suc 2 (plus 4 w),
      pow-suc 2 (plus 3 w),
      pow-suc 2 (plus 2 w),
      pow-suc 2 (plus 1 w),
      pow-suc 2 w,
    )

pub bytes_value-lt : (n : ℕ) (d : Buffer) → IsBytes d → bytes_value n d < 2 ^ width n
unfolding bytes_value
bytes_value-lt zero d h = omega arith
bytes_value-lt (suc n) d h =
    omega (arith, pow_width n, bytes_value-lt n (λ j. d (suc j)) (λ j. h (suc j)), h 0)

-- The byte at the high end apart.
bytes_value_top : (n : ℕ) (d : Buffer) → bytes_value (suc n) d ≡ d n * 2 ^ width n + bytes_value n d
unfolding bytes_value
bytes_value_top zero d = omega arith
bytes_value_top (suc n) d =
    omega (arith, bytes_value_top n (λ j. d (suc j)), ap (λ (t : ℕ). d (suc n) * t) (pow_width n))

lead_zero : (n : ℕ) (d : Buffer) → d 0 ≡ 0 → lead (suc n) d ≡ suc (lead n (λ j. d (suc j)))
lead_zero n d e = ground arith

lead_pos : (n : ℕ) (d : Buffer) → 0 < d 0 → lead (suc n) d ≡ 0
lead_pos n d e = ground arith

pub trail_zero : (n : ℕ) (d : Buffer) → d n ≡ 0 → trail (suc n) d ≡ suc (trail n d)
trail_zero n d e = ground arith

pub trail_pos : (n : ℕ) (d : Buffer) → 0 < d n → trail (suc n) d ≡ 0
trail_pos n d e = ground arith

ctz-bytes_value : (n : ℕ) (d : Buffer) → IsBytes d → ctz (width n) (bytes_value n d) / 8 ≡ lead n d
unfolding bytes_value
ctz-bytes_value zero d h = unfold ctz in refl
ctz-bytes_value (suc n) d h =
    let v = bytes_value n (λ j. d (suc j)) in
    elim (dec_lt 0 (d 0)) [
      | yes p ↦ rw (lead_pos n d p) (omega (arith, ctz-lt 8 (width n) v (d 0) p (h 0)))
      | no p ↦ rw (lead_zero n d (omega arith)) (
          omega (
            arith,
            ap (ctz (plus 8 (width n))) {x = v * 2 ^ 8 + d 0} {y = v * 2 ^ 8} (omega arith),
            ctz_shift 8 (width n) v,
            ctz-bytes_value n (λ j. d (suc j)) (λ j. h (suc j)),
          ))
    ]

le-mul_add : (a m b : ℕ) → 0 < a → m ≤ a * m + b
le-mul_add zero m b h = elim h [ ]
le-mul_add (suc a) m b h = omega arith

clz-bytes_value : (n : ℕ) (d : Buffer) → IsBytes d → clz (width n) (bytes_value n d) / 8 ≡ trail n d
clz-bytes_value zero d h = unfold clz in refl
clz-bytes_value (suc n) d h = elim (dec_lt 0 (d n)) [
  | yes p ↦
      rw (trail_pos n d p, bytes_value_top n d)
        (omega (
          arith,
          clz-lt 8 (width n) (d n * 2 ^ width n + bytes_value n d) (le-mul_add (d n) _ _ p)
              (omega arith),
        ))
  | no p ↦
      let e : bytes_value (suc n) d ≡ bytes_value n d = ground (arith, bytes_value_top n d) in
      rw (trail_zero n d (omega arith), e)
        (omega (
          arith,
          clz_shift 8 (width n) (bytes_value n d) (bytes_value-lt n d h),
          clz-bytes_value n d h,
        ))
]

-- `LZB` counts the zero bytes at the low addresses of a word, `TZB` those at the high addresses.
pub lzb-bytes_value : (d : Buffer) → IsBytes d → lzb (bytes_value 8 d) ≡ lead 8 d
unfolding lzb
lzb-bytes_value d h = ctz-bytes_value 8 d h

pub tzb-bytes_value : (d : Buffer) → IsBytes d → tzb (bytes_value 8 d) ≡ trail 8 d
unfolding tzb
tzb-bytes_value d h = clz-bytes_value 8 d h
