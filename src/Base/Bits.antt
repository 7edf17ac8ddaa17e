-- ===== src/Base/Bits.antt =====
-- Laws of `^`, `&` and `|` on numbers of any width, from the digit recursion that the native
-- operations stand for.
use Prim.Native.Nat.{
  ℕ, zero, suc, ◌+◌, ◌*◌, ◌/◌, ◌%◌, ◌^◌, ◌≤◌, ◌<◌, digits, bitwise, bit_xor, bit_xor-bitwise,
  differ, bit_and, bit_and-bitwise, bit_or, bit_or-bitwise, min, max, ◌-◌,
}
use mathlib.Core.Path.{◌≡◌, refl, ap, ◌∙◌}
use native.Mathlib.Nat.{pow-suc}
use native.Mathlib.Omega.{arith}

-- A recursion on binary digits, given fuel for its first number, does not depend on the fuel.
module _ (above : ℕ → ℕ) (digit : ℕ → ℕ → ℕ) where
  one_more : (n x y : ℕ) → x ≤ n → digits above digit (suc n) x y ≡ digits above digit n x y
  one_more zero (suc x) y h = absurd (omega arith)
  one_more zero zero y h = refl
  one_more (suc n) zero y h = refl
  one_more (suc n) (suc x) y h =
      ap (λ (t : ℕ). t * 2 + digit (suc x % 2) (y % 2))
        (one_more n (suc x / 2) (y / 2) (omega arith))

  spare_fuel :
      (spare enough fuel x y : ℕ)
      → x ≤ enough
      → fuel ≡ spare + enough
      → digits above digit fuel x y ≡ digits above digit enough x y
  spare_fuel zero enough fuel x y h e = let same : fuel ≡ enough = omega arith in rw same refl
  spare_fuel (suc spare) enough zero x y h e = absurd (omega arith)
  spare_fuel (suc spare) enough (suc fuel) x y h e =
      one_more fuel x y (omega arith) ∙ spare_fuel spare enough fuel x y h (omega arith)

  -- The lowest digit apart.
  pub lowest_digit :
      ((y : ℕ) → above y ≡ above (y / 2) * 2 + digit 0 (y % 2))
      → (x y : ℕ)
      → bitwise above digit x y ≡ bitwise above digit (x / 2) (y / 2) * 2 + digit (x % 2) (y % 2)
  lowest_digit h zero y = h y
  lowest_digit h (suc x) y =
      let half = suc x / 2 in
      omega (arith, spare_fuel (x - half) half x half (y / 2) (omega arith) (omega arith))

pub bit_xor_step : (a b : ℕ) → bit_xor a b ≡ bit_xor (a / 2) (b / 2) * 2 + differ (a % 2) (b % 2)
bit_xor_step a b =
    let step = lowest_digit (λ y. y) differ (λ y. omega arith) a b in
    bit_xor-bitwise a b ∙ step ∙ rw (bit_xor-bitwise (a / 2) (b / 2)) refl

bit_xor_zero : (b : ℕ) → bit_xor 0 b ≡ b
bit_xor_zero b = bit_xor-bitwise 0 b

pub differ-lt : (a b : ℕ) → a < 2 → b < 2 → differ a b < 2
differ-lt zero b h k = k
differ-lt (suc zero) zero h k = omega arith
differ-lt (suc zero) (suc b) h k = omega arith
differ-lt (suc (suc a)) b h k = absurd (omega arith)

differ-eq_zero : (a b : ℕ) → differ a b ≡ 0 → a ≡ b
differ-eq_zero zero b h = omega arith
differ-eq_zero (suc a) zero h = absurd (omega arith)
differ-eq_zero (suc a) (suc b) h = ap suc (differ-eq_zero a b h)

differ_self : (a : ℕ) → differ a a ≡ 0
differ_self zero = refl
differ_self (suc a) = differ_self a

pub mul-two-pow-suc : (factor k : ℕ) → factor * 2 ^ suc k ≡ 2 * (factor * 2 ^ k)
mul-two-pow-suc factor k =
    let doubled = ap (λ (power : ℕ). factor * power) (pow-suc 2 k) in omega (arith, doubled)

-- Below 2 ^ k the result stays below 2 ^ k.
pub bit_xor-lt : (k a b : ℕ) → a < 2 ^ k → b < 2 ^ k → bit_xor a b < 2 ^ k
bit_xor-lt zero zero zero h g = omega arith
bit_xor-lt zero zero (suc b) h g = absurd (omega arith)
bit_xor-lt zero (suc a) b h g = absurd (omega arith)
bit_xor-lt (suc k) a b h g = omega (
  arith,
  pow-suc 2 k,
  bit_xor_step a b,
  differ-lt (a % 2) (b % 2) (omega arith) (omega arith),
  bit_xor-lt k (a / 2) (b / 2) (omega (arith, pow-suc 2 k)) (omega (arith, pow-suc 2 k)),
)

-- The high parts and the low `k` bits are combined apart.
pub bit_xor_split :
    (k x y a b : ℕ)
    → a < 2 ^ k
    → b < 2 ^ k
    → bit_xor (x * 2 ^ k + a) (y * 2 ^ k + b) ≡ bit_xor x y * 2 ^ k + bit_xor a b
bit_xor_split zero x y zero zero h g = ground arith
bit_xor_split zero x y zero (suc b) h g = absurd (omega arith)
bit_xor_split zero x y (suc a) b h g = absurd (omega arith)
bit_xor_split (suc k) x y a b h g = ground (
  arith,
  bit_xor_step (x * 2 ^ suc k + a) (y * 2 ^ suc k + b),
  bit_xor_step a b,
  mul-two-pow-suc x k,
  mul-two-pow-suc y k,
  mul-two-pow-suc (bit_xor x y) k,
  pow-suc 2 k,
  bit_xor_split k x y (a / 2) (b / 2),
)

bit_xor-eq_zero_fuel : (n a b : ℕ) → a ≤ n → bit_xor a b ≡ 0 → a ≡ b
bit_xor-eq_zero_fuel n zero b h e = ground (arith, bit_xor_zero b)
bit_xor-eq_zero_fuel zero (suc a) b h e = absurd (omega arith)
bit_xor-eq_zero_fuel (suc n) (suc a) b h e = omega (
  arith,
  bit_xor_step (suc a) b,
  bit_xor-eq_zero_fuel n (suc a / 2) (b / 2) (omega arith) (omega (arith, bit_xor_step (suc a) b)),
  differ-eq_zero (suc a % 2) (b % 2) (omega (arith, bit_xor_step (suc a) b)),
)

-- Numbers with no differing bit are equal.
pub bit_xor-eq_zero : (a b : ℕ) → bit_xor a b ≡ 0 → a ≡ b
bit_xor-eq_zero a b e = bit_xor-eq_zero_fuel a a b (omega arith) e

bit_xor_self_fuel : (n a : ℕ) → a ≤ n → bit_xor a a ≡ 0
bit_xor_self_fuel n zero h = bit_xor_zero 0
bit_xor_self_fuel zero (suc a) h = absurd (omega arith)
bit_xor_self_fuel (suc n) (suc a) h = omega (
  arith,
  bit_xor_step (suc a) (suc a),
  differ_self (suc a % 2),
  bit_xor_self_fuel n (suc a / 2) (omega arith),
)

pub bit_xor_self : (a : ℕ) → bit_xor a a ≡ 0
bit_xor_self a = bit_xor_self_fuel a a (omega arith)

pub bit_and_step : (x y : ℕ) → bit_and x y ≡ bit_and (x / 2) (y / 2) * 2 + min (x % 2) (y % 2)
bit_and_step x y =
    let step = lowest_digit (λ y. 0) min (λ y. omega arith) x y in
    bit_and-bitwise x y ∙ step ∙ rw (bit_and-bitwise (x / 2) (y / 2)) refl

bit_and_none : (fuel x : ℕ) → x ≤ fuel → bit_and x 0 ≡ 0
bit_and_none fuel zero h = bit_and-bitwise 0 0
bit_and_none zero (suc x) h = absurd (omega arith)
bit_and_none (suc fuel) (suc x) h =
    let rest = bit_and_none fuel (suc x / 2) (omega arith) in
    omega (arith, rest, bit_and_step (suc x) 0)

-- A mask of `k` ones keeps the lowest `k` bits.
bit_and_fields : (k high low : ℕ) → low < 2 ^ k → bit_and (high * 2 ^ k + low) (2 ^ k - 1) ≡ low
bit_and_fields zero high low h =
    ground (arith, bit_and_none (high * 1 + low) (high * 1 + low) (omega arith))
bit_and_fields (suc k) high low h = ground (
  arith,
  pow-suc 2 k,
  mul-two-pow-suc high k,
  bit_and_fields k high (low / 2),
  bit_and_step (high * 2 ^ suc k + low) (2 ^ suc k - 1),
)

-- A mask of ones is the remainder by a power of 2, here by 8, by 128 and by 256.
pub bit_and_seven : (a : ℕ) → bit_and a 7 ≡ a % 8
bit_and_seven a = ground (arith, bit_and_fields 3 (a / 8) (a % 8))

pub bit_and_0x7f : (a : ℕ) → bit_and a 0x7f ≡ a % 128
bit_and_0x7f a = ground (arith, bit_and_fields 7 (a / 128) (a % 128))

pub bit_and_0xff : (a : ℕ) → bit_and a 0xff ≡ a % 256
bit_and_0xff a = ground (arith, bit_and_fields 8 (a / 256) (a % 256))

pub bit_or_step : (x y : ℕ) → bit_or x y ≡ bit_or (x / 2) (y / 2) * 2 + max (x % 2) (y % 2)
bit_or_step x y =
    let step = lowest_digit (λ y. y) max (λ y. omega arith) x y in
    bit_or-bitwise x y ∙ step ∙ rw (bit_or-bitwise (x / 2) (y / 2)) refl

bit_or_none : (fuel x : ℕ) → x ≤ fuel → bit_or x 0 ≡ x
bit_or_none fuel zero h = bit_or-bitwise 0 0
bit_or_none zero (suc x) h = absurd (omega arith)
bit_or_none (suc fuel) (suc x) h =
    let rest = bit_or_none fuel (suc x / 2) (omega arith) in
    omega (arith, rest, bit_or_step (suc x) 0)

-- `|` of fields that do not overlap is a sum, in both orders.
pub bit_or_fields : (k high low : ℕ) → low < 2 ^ k → bit_or (high * 2 ^ k) low ≡ high * 2 ^ k + low
bit_or_fields zero high zero h = bit_or_none (high * 1) (high * 1) (omega arith) ∙ omega arith
bit_or_fields zero high (suc low) h = absurd (omega arith)
bit_or_fields (suc k) high low h = ground (
  arith,
  pow-suc 2 k,
  mul-two-pow-suc high k,
  bit_or_fields k high (low / 2),
  bit_or_step (high * 2 ^ suc k) low,
)

pub bit_or_fields_low :
    (k high low : ℕ) → low < 2 ^ k → bit_or low (high * 2 ^ k) ≡ high * 2 ^ k + low
bit_or_fields_low zero high zero h = bit_or-bitwise 0 (high * 1) ∙ omega arith
bit_or_fields_low zero high (suc low) h = absurd (omega arith)
bit_or_fields_low (suc k) high low h = ground (
  arith,
  pow-suc 2 k,
  mul-two-pow-suc high k,
  bit_or_fields_low k high (low / 2),
  bit_or_step low (high * 2 ^ suc k),
)
