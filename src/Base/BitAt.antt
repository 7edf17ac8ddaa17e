-- ===== src/Base/BitAt.antt =====
-- The bits of a number by their position, and how the bit operations and shifts act on them.
use Prim.Native.Nat.{ℕ, zero, suc, ◌+◌, ◌-◌, ◌*◌, ◌/◌, ◌%◌, ◌^◌, ◌≤◌, ◌<◌, min, max, differ}
use Prim.Native.Nat.{bit_and, bit_or, bit_xor}
use mathlib.Core.Path.{◌≡◌, refl, sym, ap, ◌∙◌}
use native.Mathlib.Nat.{pow-suc, div-div-eq-div-mul, div-add-mod'}
use native.Mathlib.Omega.{arith}
use p4_hmd.Base.Bits.{bit_xor_step, bit_and_step, bit_or_step, differ-lt, mul-two-pow-suc}

-- Bit `i` of `x`, the lowest first.
abbrev pub bit_at : ℕ → ℕ → ℕ
bit_at x zero = x % 2
bit_at x (suc i) = bit_at (x / 2) i

pub bit_at-lt : (x i : ℕ) → bit_at x i < 2
bit_at-lt x zero = omega arith
bit_at-lt x (suc i) = bit_at-lt (x / 2) i

-- An operation that works digit by digit.
module _ (op digit : ℕ → ℕ → ℕ)
    (step : (x y : ℕ) → op x y ≡ op (x / 2) (y / 2) * 2 + digit (x % 2) (y % 2))
    (small : (x y : ℕ) → x < 2 → y < 2 → digit x y < 2) where
  bit_at_digitwise : (x y i : ℕ) → bit_at (op x y) i ≡ digit (bit_at x i) (bit_at y i)
  bit_at_digitwise x y zero =
      omega (arith, step x y, small (x % 2) (y % 2) (omega arith) (omega arith))
  bit_at_digitwise x y (suc i) =
      let half : op x y / 2 ≡ op (x / 2) (y / 2) =
        omega (arith, step x y, small (x % 2) (y % 2) (omega arith) (omega arith)) in
      rw half (bit_at_digitwise (x / 2) (y / 2) i)

pub bit_at-xor : (x y i : ℕ) → bit_at (bit_xor x y) i ≡ differ (bit_at x i) (bit_at y i)
bit_at-xor = bit_at_digitwise bit_xor differ bit_xor_step differ-lt

pub bit_at-and : (x y i : ℕ) → bit_at (bit_and x y) i ≡ min (bit_at x i) (bit_at y i)
bit_at-and = bit_at_digitwise bit_and min bit_and_step (λ x y p q. omega arith)

pub bit_at-or : (x y i : ℕ) → bit_at (bit_or x y) i ≡ max (bit_at x i) (bit_at y i)
bit_at-or = bit_at_digitwise bit_or max bit_or_step (λ x y p q. omega arith)

-- A shift to the right moves the bits down.
pub bit_at-div : (k x i : ℕ) → bit_at (x / 2 ^ k) i ≡ bit_at x (i + k)
bit_at-div zero x i =
    let same : i + 0 ≡ i = omega arith in let one : x / 1 ≡ x = omega arith in rw (same, one) refl
bit_at-div (suc k) x i =
    let same : i + suc k ≡ suc (i + k) = omega arith in
    let twice : 2 ^ suc k ≡ 2 * 2 ^ k = omega (arith, pow-suc 2 k) in
    let halves : x / 2 ^ suc k ≡ x / 2 / 2 ^ k =
      ap (λ (y : ℕ). x / y) twice ∙ sym (div-div-eq-div-mul x 2 (2 ^ k)) in
    ap (λ (y : ℕ). bit_at y i) halves ∙ bit_at-div k (x / 2) i ∙ ap (bit_at x) (sym same)

-- A number in two fields: the bits above `k` and those below.
pub bit_at_above :
    (k high low i : ℕ) → low < 2 ^ k → bit_at (high * 2 ^ k + low) (i + k) ≡ bit_at high i
bit_at_above zero high low i h =
    let same : i + 0 ≡ i = omega arith in
    let all : high * 1 + low ≡ high = omega arith in rw (same, all) refl
bit_at_above (suc k) high low i h =
    let same : i + suc k ≡ suc (i + k) = omega arith in
    let half : (high * 2 ^ suc k + low) / 2 ≡ high * 2 ^ k + low / 2 =
      omega (arith, mul-two-pow-suc high k) in
    ap (bit_at (high * 2 ^ suc k + low)) same
    ∙ ap (λ (y : ℕ). bit_at y (i + k)) half
    ∙ bit_at_above k high (low / 2) i (omega (arith, pow-suc 2 k))

pub bit_at_below : (k high low i : ℕ) → i < k → bit_at (high * 2 ^ k + low) i ≡ bit_at low i
bit_at_below zero high low i h = absurd (omega arith)
bit_at_below (suc k) high low zero h = omega (arith, mul-two-pow-suc high k)
bit_at_below (suc k) high low (suc i) h =
    let half : (high * 2 ^ suc k + low) / 2 ≡ high * 2 ^ k + low / 2 =
      omega (arith, mul-two-pow-suc high k) in
    rw half (bit_at_below k high (low / 2) i (omega arith))

pow-pos : (k : ℕ) → 0 < 2 ^ k
pow-pos zero = omega arith
pow-pos (suc k) = omega (arith, pow-suc 2 k, pow-pos k)

-- A shift to the left moves them up, and fills with zeros.
pub bit_at-mul : (k x i : ℕ) → k ≤ i → bit_at (x * 2 ^ k) i ≡ bit_at x (i - k)
bit_at-mul k x i h =
    let same : i ≡ (i - k) + k = omega arith in
    let none : x * 2 ^ k ≡ x * 2 ^ k + 0 = omega arith in
    ap (bit_at (x * 2 ^ k)) same
    ∙ ap (λ (y : ℕ). bit_at y ((i - k) + k)) none
    ∙ bit_at_above k x 0 (i - k) (pow-pos k)

bit_at-zero : (i : ℕ) → bit_at 0 i ≡ 0
bit_at-zero zero = refl
bit_at-zero (suc i) = bit_at-zero i

pub bit_at-mul_low : (k x i : ℕ) → i < k → bit_at (x * 2 ^ k) i ≡ 0
bit_at-mul_low k x i h =
    let none : x * 2 ^ k ≡ x * 2 ^ k + 0 = omega arith in
    ap (λ (y : ℕ). bit_at y i) none ∙ bit_at_below k x 0 i h ∙ bit_at-zero i

-- Truncation to `k` bits keeps the lower ones.
pub bit_at-mod : (k x i : ℕ) → i < k → bit_at (x % 2 ^ k) i ≡ bit_at x i
bit_at-mod k x i h =
    sym (bit_at_below k (x / 2 ^ k) (x % 2 ^ k) i h)
    ∙ ap (λ (y : ℕ). bit_at y i) (div-add-mod' x (2 ^ k))

pub bit_at-high : (k x i : ℕ) → x < 2 ^ k → k ≤ i → bit_at x i ≡ 0
bit_at-high zero zero zero h g = refl
bit_at-high zero zero (suc i) h g = bit_at-zero i
bit_at-high zero (suc x) i h g = absurd (omega arith)
bit_at-high (suc k) x zero h g = absurd (omega arith)
bit_at-high (suc k) x (suc i) h g =
    bit_at-high k (x / 2) i (omega (arith, pow-suc 2 k)) (omega arith)

-- Numbers with the same bits below `k` are the same.
pub bit_at-eq :
    (k x y : ℕ) → x < 2 ^ k → y < 2 ^ k → ((i : ℕ) → i < k → bit_at x i ≡ bit_at y i) → x ≡ y
bit_at-eq zero x y h g e = omega arith
bit_at-eq (suc k) x y h g e =
    let halves =
      bit_at-eq k (x / 2) (y / 2) (omega (arith, pow-suc 2 k)) (omega (arith, pow-suc 2 k))
        (λ i p. e (suc i) (omega arith)) in
    omega (arith, halves, e 0 (omega arith))
