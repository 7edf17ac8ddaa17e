-- ===== src/Rotation/Ops/Transpose.antt =====
-- `transpose8x8_rot` moves bit `8 r + c` to bit `8 c + r`.
use Prim.Native.Nat.{differ}
use p4_hmd.Base.{ℕ, zero, suc, ◌+◌, ◌-◌, ◌*◌, ◌/◌, ◌%◌, ◌≤◌, ◌<◌, ◌≡◌, refl, sym, ◌∙◌, ap, arith}
use p4_hmd.Base.{u64, ◌<<<◌, ◌>>>◌, bit_and, bit_xor, min, Bool, true, false, ◌==◌, leb, ◌&&◌}
use p4_hmd.Base.{all_below, all_below_at, both, same_number, at_most, if◌then◌else◌}
use native.Mathlib.Decide.{dec_le}
use p4_hmd.Base.Bits.{differ-lt}
use p4_hmd.Base.BitAt.{
  bit_at, bit_at-lt, bit_at-xor, bit_at-and, bit_at-div, bit_at-mul, bit_at-mul_low, bit_at-mod,
}
use p4_hmd.Rotation.Ops.{delta_swap, transpose8x8_rot, mask4, mask2, mask1}

differ-zero : (a : ℕ) → differ a 0 ≡ a
differ-zero zero = refl
differ-zero (suc a) = refl

differ_twice : (a b : ℕ) → a < 2 → b < 2 → differ a (differ a b) ≡ b
differ_twice zero b h k = refl
differ_twice (suc zero) zero h k = refl
differ_twice (suc zero) (suc zero) h k = refl
differ_twice (suc zero) (suc (suc b)) h k = absurd (omega arith)
differ_twice (suc (suc a)) b h k = absurd (omega arith)

differ_comm : (a b : ℕ) → differ a b ≡ differ b a
differ_comm zero b = sym (differ-zero b)
differ_comm (suc a) zero = refl
differ_comm (suc a) (suc b) = differ_comm a b

-- Where a bit comes from in a stage: `m` and `n` are the mask's bits at the bit and `shift` below.
pick_bit :
    (a b c m n : ℕ)
    → a < 2
    → b < 2
    → c < 2
    → m + n ≤ 1
    → differ (differ a (min (differ a b) m)) (min (differ c a) n)
      ≡ (if m == 1 then b else (if n == 1 then c else a))
pick_bit a b c zero zero ha hb hc h =
    let e : min (differ a b) 0 ≡ 0 = omega arith in
    let f : min (differ c a) 0 ≡ 0 = omega arith in rw (e, f, differ-zero a) (differ-zero a)
pick_bit a b c (suc zero) zero ha hb hc h =
    let e : min (differ a b) 1 ≡ differ a b = omega (arith, differ-lt a b ha hb) in
    let f : min (differ c a) 0 ≡ 0 = omega arith in
    rw (e, f, differ_twice a b ha hb) (differ-zero b)
pick_bit a b c zero (suc zero) ha hb hc h =
    let e : min (differ a b) 0 ≡ 0 = omega arith in
    let f : min (differ c a) 1 ≡ differ a c = omega (arith, differ_comm c a, differ-lt a c ha hc) in
    rw (e, f, differ-zero a) (differ_twice a c ha hc)
pick_bit a b c zero (suc (suc n)) ha hb hc h = absurd (omega arith)
pick_bit a b c (suc zero) (suc n) ha hb hc h = absurd (omega arith)
pick_bit a b c (suc (suc m)) n ha hb hc h = absurd (omega arith)

-- The bit of the mask `shift` below, 0 under the lowest one.
abbrev below_bit : ℕ → ℕ → ℕ → ℕ
below_bit shift mask i = if leb shift i then bit_at mask (i - shift) else 0

abbrev source_bit : ℕ → ℕ → ℕ → ℕ
source_bit shift mask i =
    if bit_at mask i == 1 then i + shift else (if below_bit shift mask i == 1 then i - shift else i)

abbrev disjoint_at : ℕ → ℕ → ℕ → Bool
disjoint_at shift mask i = leb (bit_at mask i + below_bit shift mask i) 1

choose_bit :
    (p q : Bool) (x i j k : ℕ)
    → (if p then bit_at x i else (if q then bit_at x j else bit_at x k))
      ≡ bit_at x (if p then i else (if q then j else k))
choose_bit true q x i j k = refl
choose_bit false true x i j k = refl
choose_bit false false x i j k = refl

module _ (shift mask x : ℕ) where
  abbrev taken : ℕ
  taken = bit_and (bit_xor x (x >>> shift)) mask

  taken_bit :
      (j : ℕ) → bit_at taken j ≡ min (differ (bit_at x j) (bit_at x (j + shift))) (bit_at mask j)
  taken_bit j =
      bit_at-and (bit_xor x (x >>> shift)) mask j
      ∙ ap (λ (b : ℕ). min b (bit_at mask j))
          (bit_at-xor x (x >>> shift) j ∙ ap (differ (bit_at x j)) (bit_at-div shift x j))

  shifted_bit :
      (i : ℕ)
      → i < 64
      → bit_at (u64 (taken <<< shift)) i
        ≡ min (differ (bit_at x (i - shift)) (bit_at x i)) (below_bit shift mask i)
  shifted_bit i h = bit_at-mod 64 (taken <<< shift) i h ∙ elim (dec_le shift i) [
    | yes le ↦
        let back : i - shift + shift ≡ i = omega arith in
        let t : leb shift i ≡ true = ground arith in
        bit_at-mul shift taken i le ∙ taken_bit (i - shift) ∙ rw (back, t) refl
    | no gt ↦
        let t : leb shift i ≡ false = ground arith in
        bit_at-mul_low shift taken i (omega arith) ∙ rw t (omega arith)
  ]

  delta_swap_bit :
      (i : ℕ)
      → i < 64
      → disjoint_at shift mask i ≡ true
      → bit_at (delta_swap shift mask x) i ≡ bit_at x (source_bit shift mask i)
  unfolding delta_swap
  delta_swap_bit i h d =
      bit_at-xor (bit_xor x taken) (u64 (taken <<< shift)) i
      ∙ rw (bit_at-xor x taken i, taken_bit i, shifted_bit i h)
          (pick_bit (bit_at x i) (bit_at x (i + shift)) (bit_at x (i - shift)) (bit_at mask i)
            (below_bit shift mask i) (bit_at-lt x i) (bit_at-lt x (i + shift))
            (bit_at-lt x (i - shift)) (ground arith))
      ∙ choose_bit (bit_at mask i == 1) (below_bit shift mask i == 1) x (i + shift) (i - shift) i

abbrev pub transposed : ℕ → ℕ
transposed i = i % 8 * 8 + i / 8

abbrev good_index : ℕ → Bool
good_index i =
    let i1 = source_bit 7 mask1 i in
    let i2 = source_bit 14 mask2 i1 in
    disjoint_at 7 mask1 i
    && (disjoint_at 14 mask2 i1
        && (disjoint_at 28 mask4 i2
            && (leb i1 63 && (leb i2 63 && (source_bit 28 mask4 i2 == transposed i)))))

all_good : all_below 64 good_index ≡ true
all_good = refl

good_parts :
    (i : ℕ)
    → good_index i ≡ true
    → let i1 = source_bit 7 mask1 i in
      let i2 = source_bit 14 mask2 i1 in
      (disjoint_at 7 mask1 i ≡ true)
      × (disjoint_at 14 mask2 i1 ≡ true)
      × (disjoint_at 28 mask4 i2 ≡ true)
      × (i1 < 64)
      × (i2 < 64)
      × (source_bit 28 mask4 i2 ≡ transposed i)
good_parts i h =
    let (p1, h1) = both _ _ h in
    let (p2, h2) = both _ _ h1 in
    let (p3, h3) = both _ _ h2 in
    let (p4, h4) = both _ _ h3 in
    let (p5, h5) = both _ _ h4 in (p1, p2, p3, at_most _ 63 p4, at_most _ 63 p5, same_number _ _ h5)

-- `transpose8x8_rot` transposes: bit `8 r + c` of the result is bit `8 c + r` of the argument.
pub transpose_bit : (x i : ℕ) → i < 64 → bit_at (transpose8x8_rot x) i ≡ bit_at x (transposed i)
unfolding transpose8x8_rot
transpose_bit x i h =
    let i1 = source_bit 7 mask1 i in
    let i2 = source_bit 14 mask2 i1 in
    let good = good_parts i (all_below_at 64 good_index i all_good h) in
    delta_swap_bit 7 mask1 _ i h good.0
    ∙ delta_swap_bit 14 mask2 _ i1 good.3 good.1
    ∙ delta_swap_bit 28 mask4 x i2 good.4 good.2
    ∙ ap (bit_at x) good.5
