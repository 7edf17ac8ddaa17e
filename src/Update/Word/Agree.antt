-- ===== src/Update/Word/Agree.antt =====
-- What `LZB`, `TZB` and a zero xor of two words say of the bytes that the words were loaded from.
use native.Mathlib.Decide.{ℕ_discrete}
use p4_hmd.Base.{ℕ, zero, suc, ◌+◌, ◌≤◌, ◌<◌, ◌≡◌, ◌≢◌, refl, arith}
use p4_hmd.Base.{bit_xor}
use p4_hmd.Base.Bits.{bit_xor-lt, bit_xor_split, bit_xor-eq_zero, bit_xor_self}
use p4_hmd.Update.Word.{Buffer, IsBytes, bytes_value, lzb, tzb, last_byte, spread}
use p4_hmd.Update.Word.Count.{lead, trail, lzb-bytes_value, tzb-bytes_value, trail_zero, trail_pos}

-- The xor of two words, byte by byte.
abbrev xor_bytes : Buffer → Buffer → Buffer
xor_bytes f g = λ j. bit_xor (f j) (g j)

module _ (f g : Buffer) (hf : IsBytes f) (hg : IsBytes g) where
  xor_bytes-IsBytes : IsBytes (xor_bytes f g)
  xor_bytes-IsBytes j = bit_xor-lt 8 (f j) (g j) (hf j) (hg j)

xor-bytes_value :
    (n : ℕ) (f g : Buffer)
    → IsBytes f
    → IsBytes g
    → bit_xor (bytes_value n f) (bytes_value n g) ≡ bytes_value n (xor_bytes f g)
unfolding bytes_value
xor-bytes_value zero f g hf hg = refl
xor-bytes_value (suc n) f g hf hg =
    let f' : Buffer = λ j. f (suc j) in
    let g' : Buffer = λ j. g (suc j) in
    ground (
      arith,
      bit_xor_split 8 (bytes_value n f') (bytes_value n g') (f 0) (g 0) (hf 0) (hg 0),
      xor-bytes_value n f' g' (λ j. hf (suc j)) (λ j. hg (suc j)),
    )

lead-zero : (n j : ℕ) (d : Buffer) → j < lead n d → d j ≡ 0
lead-zero zero j d h = elim h [ ]
lead-zero (suc n) zero d h = ground arith
lead-zero (suc n) (suc j) d h = lead-zero n j (λ j. d (suc j)) (ground arith)

lead-stop : (n : ℕ) (d : Buffer) → lead n d < n → d (lead n d) ≢ 0
lead-stop zero d h = elim h [ ]
lead-stop (suc n) d h = ground (arith, lead-stop n (λ j. d (suc j)))

lead-le : (n : ℕ) (d : Buffer) → lead n d ≤ n
lead-le zero d = omega arith
lead-le (suc n) d = ground (arith, lead-le n (λ j. d (suc j)))

trail-zero : (n j : ℕ) (d : Buffer) → j < n → n ≤ j + trail n d → d j ≡ 0
trail-zero zero j d h g = elim h [ ]
trail-zero (suc n) j d h g = elim (ℕ_discrete j n) [
  | yes e ↦ rw e (ground arith)
  | no e ↦ trail-zero n j d (omega arith) (ground arith)
]

trail-stop : (n m : ℕ) (d : Buffer) → m + 1 + trail n d ≡ n → d m ≢ 0
trail-stop zero m d e = absurd (omega arith)
trail-stop (suc n) m d e = elim (ℕ_discrete (d n) 0) [
  | yes z ↦ trail-stop n m d (omega (arith, trail_zero n d z))
  | no p ↦ let k : m ≡ n = omega (arith, trail_pos n d (omega arith)) in rw k p
]

trail-le : (n : ℕ) (d : Buffer) → trail n d ≤ n
trail-le zero d = omega arith
trail-le (suc n) d = ground (arith, trail-le n d)

bytes_value_of_zero : (n : ℕ) (d : Buffer) → lead n d ≡ n → bytes_value n d ≡ 0
unfolding bytes_value
bytes_value_of_zero zero d h = refl
bytes_value_of_zero (suc n) d h = ground (arith, bytes_value_of_zero n (λ j. d (suc j)))

lead-lt : (n : ℕ) (d : Buffer) → bytes_value n d ≢ 0 → lead n d < n
lead-lt n d ne = elim (ℕ_discrete (lead n d) n) [
  | yes e ↦ absurd (ne (bytes_value_of_zero n d e))
  | no p ↦ omega (arith, lead-le n d)
]

bytes_value-eq_zero : (n j : ℕ) (d : Buffer) → bytes_value n d ≡ 0 → j < n → d j ≡ 0
unfolding bytes_value
bytes_value-eq_zero zero j d h g = elim g [ ]
bytes_value-eq_zero (suc n) zero d h g = omega arith
bytes_value-eq_zero (suc n) (suc j) d h g =
    bytes_value-eq_zero n j (λ j. d (suc j)) (omega arith) (omega arith)

-- The bytes of two words that the counts of their xor speak of.
pub record Agrees (f g : Buffer) (x : ℕ) : Type 0 where
  pub lzb_le : lzb x ≤ 8
  pub tzb_le : tzb x ≤ 8
  pub low : (j : ℕ) → j < lzb x → f j ≡ g j
  pub high : (j : ℕ) → j < 8 → 8 ≤ j + tzb x → f j ≡ g j
  pub low_stop : x ≢ 0 → (lzb x < 8) × (f (lzb x) ≢ g (lzb x))
  pub high_stop : (m : ℕ) → x ≢ 0 → m + 1 + tzb x ≡ 8 → f m ≢ g m
  pub same : x ≡ 0 → (j : ℕ) → j < 8 → f j ≡ g j

module _ (f g : Buffer) (hf : IsBytes f) (hg : IsBytes g) where
  abbrev xor_value : ℕ
  xor_value = bytes_value 8 (xor_bytes f g)

  counts : (lzb xor_value ≡ lead 8 (xor_bytes f g)) × (tzb xor_value ≡ trail 8 (xor_bytes f g))
  counts = let b = xor_bytes-IsBytes f g hf hg in (lzb-bytes_value _ b, tzb-bytes_value _ b)

  differs : (j : ℕ) → bit_xor (f j) (g j) ≢ 0 → f j ≢ g j
  differs j ne e = ne (rw e (bit_xor_self (g j)))

  xor_value-Agrees : Agrees f g xor_value
  xor_value-Agrees =
      let d : Buffer = xor_bytes f g in
      record {
        lzb_le = rw (counts.0) (lead-le 8 d);
        tzb_le = rw (counts.1) (trail-le 8 d);
        low = λ j h. bit_xor-eq_zero _ _ (lead-zero 8 j d (rw (counts.0) at h));
        high = λ j h k. bit_xor-eq_zero _ _ (trail-zero 8 j d h (omega (arith, counts.1)));
        low_stop = λ ne.
            let l : lead 8 d < 8 = lead-lt 8 d ne in rw (counts.0) (l, differs _ (lead-stop 8 d l));
        high_stop = λ m ne e. differs m (trail-stop 8 m d (omega (arith, counts.1)));
        same = λ z j h. bit_xor-eq_zero _ _ (bytes_value-eq_zero 8 j d z h);
      }

  -- The counts of the xor of two words delimit the bytes on which the words agree.
  pub bit_xor-Agrees : Agrees f g (bit_xor (bytes_value 8 f) (bytes_value 8 g))
  bit_xor-Agrees = rw (xor-bytes_value 8 f g hf hg) xor_value-Agrees

spread-bytes_value : (b : ℕ) → b < 256 → spread b ≡ bytes_value 8 (λ _. b)
unfolding spread bytes_value
spread-bytes_value b h = omega arith

pub last_byte-bytes_value : (f : Buffer) → IsBytes f → last_byte (bytes_value 8 f) ≡ f 7
unfolding last_byte bytes_value
last_byte-bytes_value f h = omega (arith, h 0, h 1, h 2, h 3, h 4, h 5, h 6, h 7)

-- Against a spread byte the counts delimit the bytes that equal it.
pub spread-Agrees :
    (f : Buffer) (b : ℕ)
    → IsBytes f
    → b < 256
    → Agrees f (λ _. b) (bit_xor (bytes_value 8 f) (spread b))
spread-Agrees f b hf hb = rw (spread-bytes_value b hb) (bit_xor-Agrees f (λ _. b) hf (λ _. hb))
