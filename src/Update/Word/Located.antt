-- ===== src/Update/Word/Located.antt =====
-- The facts of `Agrees`, for the word at index `i` of two buffers, at the addresses of its bytes.
use p4_hmd.Base.{ℕ, ◌+◌, ◌-◌, ◌*◌, ◌≤◌, ◌<◌, ◌≡◌, ◌≢◌, subst, arith}
use p4_hmd.Update.Word.{Buffer, IsBytes, at, load64, lzb, tzb, spread}
use p4_hmd.Update.Word.Agree.{Agrees, bit_xor-Agrees, spread-Agrees}
use p4_hmd.Base.{bit_xor}
use native.Mathlib.Decide.{dec_lt}

pub record AgreesAt (f g : Buffer) (i x : ℕ) : Type 0 where
  pub low : (j : ℕ) → i * 8 ≤ j → j < i * 8 + lzb x → f j ≡ g j
  pub high : (j : ℕ) → j < i * 8 + 8 → i * 8 + 8 ≤ j + tzb x → f j ≡ g j
  pub low_stop : x ≢ 0 → f (i * 8 + lzb x) ≢ g (i * 8 + lzb x)
  pub high_stop : (m : ℕ) → x ≢ 0 → m + 1 + tzb x ≡ i * 8 + 8 → f m ≢ g m
  pub same : x ≡ 0 → (j : ℕ) → i * 8 ≤ j → j < i * 8 + 8 → f j ≡ g j
  pub lzb_le : lzb x ≤ 8
  pub tzb_le : tzb x ≤ 8
  pub apart : x ≢ 0 → lzb x + tzb x < 8

module _ (f g : Buffer) (i x : ℕ) (a : Agrees (at f (i * 8)) (at g (i * 8)) x) where
  relocate : (j : ℕ) → i * 8 ≤ j → f (i * 8 + (j - i * 8)) ≡ g (i * 8 + (j - i * 8)) → f j ≡ g j
  relocate j h e = let k : i * 8 + (j - i * 8) ≡ j = omega arith in subst (λ (m : ℕ). f m ≡ g m) k e

  located_apart : x ≢ 0 → lzb x + tzb x < 8
  located_apart ne = elim (dec_lt (lzb x + tzb x) 8) [
    | yes h ↦ h
    | no h ↦ absurd ((a.low_stop ne).1 (a.high (lzb x) ((a.low_stop ne).0) (omega arith)))
  ]

  located_stop : (m : ℕ) → x ≢ 0 → m + 1 + tzb x ≡ i * 8 + 8 → f m ≢ g m
  located_stop m ne e =
      let p = located_apart ne in
      let k : i * 8 + (m - i * 8) ≡ m = omega arith in
      subst (λ (m : ℕ). f m ≢ g m) k (a.high_stop (m - i * 8) ne (omega arith))

  pub Agrees-located : AgreesAt f g i x
  Agrees-located = record {
    low = λ j h k. relocate j h (a.low (j - i * 8) (omega arith));
    high = λ j h k.
        relocate j (omega (arith, a.tzb_le))
          (a.high (j - i * 8) (omega (arith, a.tzb_le)) (omega (arith, a.tzb_le)));
    low_stop = λ ne. (a.low_stop ne).1;
    high_stop = located_stop;
    same = λ z j h k. relocate j h (a.same z (j - i * 8) (omega arith));
    lzb_le = a.lzb_le;
    tzb_le = a.tzb_le;
    apart = located_apart;
  }

-- The word at index `i` of two buffers.
pub load64-AgreesAt :
    (f g : Buffer) (i : ℕ)
    → IsBytes f
    → IsBytes g
    → AgreesAt f g i (bit_xor (load64 f i) (load64 g i))
unfolding load64
load64-AgreesAt f g i hf hg =
    Agrees-located f g i _ (bit_xor-Agrees (at f (i * 8)) (at g (i * 8)) (λ j. hf _) (λ j. hg _))

-- The word at index `i` of a buffer, against a spread byte.
pub load64-spread-AgreesAt :
    (f : Buffer) (b i : ℕ)
    → IsBytes f
    → b < 256
    → AgreesAt f (λ _. b) i (bit_xor (load64 f i) (spread b))
unfolding load64
load64-spread-AgreesAt f b i hf hb =
    Agrees-located f (λ _. b) i _ (spread-Agrees (at f (i * 8)) b (λ j. hf _) hb)
