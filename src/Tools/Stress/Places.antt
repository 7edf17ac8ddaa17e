-- ===== src/Tools/Stress/Places.antt =====
-- The place of a random region, before and after the search for unused addresses, and its data.
use native.Mathlib.Nat.{mod-lt}
use p4_hmd.Base.{ℕ, zero, suc, ◌+◌, ◌-◌, ◌%◌, ◌≡◌, ◌≤◌, ◌<◌, arith, min, bit_and}
use p4_hmd.Base.{
  Bool, true, false, not, ◌&&◌, ◌||◌, ◌==◌, ltb, leb, if_ind, if◌then◌else◌, Bool-cases, inl, inr,
}
use p4_hmd.Base.Bits.{bit_and_0xff}
use p4_hmd.Update.Word.{Buffer, IsBytes}
use p4_hmd.Update.Encoder.{fb_size}
use p4_hmd.Tools.Stress.{stress_rand, skip_used, free_run, random_data, stress_data, random_place}

skip_used-free :
    (left : ℕ) (used : ℕ → Bool) (addr : ℕ)
    → addr + left ≡ fb_size
    → skip_used left used addr < fb_size
    → used (skip_used left used addr) ≡ false
unfolding skip_used
skip_used-free zero used addr e lt = absurd (omega arith)
skip_used-free (suc left) used addr e lt = elim (Bool-cases (used addr)) [
  | inl t ↦ rw t (skip_used-free left used (addr + 1) (omega arith) (rw t at lt))
  | inr f ↦ rw f f
]

-- What a run of free addresses promises.
record Free (len : ℕ) (used : ℕ → Bool) (addr n : ℕ) : Type 0 where
  short : n ≤ len
  inside : 0 < n → addr + n ≤ fb_size
  unused : (i : ℕ) → addr ≤ i → i < addr + n → used i ≡ false

free_run-Free : (len : ℕ) (used : ℕ → Bool) (addr : ℕ) → Free len used addr (free_run len used addr)
unfolding free_run
free_run-Free zero used addr = record {
  short = omega arith;
  inside = λ p. absurd (omega arith);
  unused = λ i p q. absurd (omega arith);
}
free_run-Free (suc len) used addr =
    let rest = free_run-Free len used (addr + 1) in
    let n = free_run len used (addr + 1) in
    if_ind (Free (suc len) used addr) (ltb addr fb_size && not (used addr)) (suc n) 0
      (λ t. record {
        short = omega (arith, rest.short);
        inside = λ p. elim (Bool-cases (n == 0)) [
          | inl z ↦ ground arith
          | inr some ↦ omega (arith, rest.inside (ground arith))
        ];
        unused = λ i p q. elim (Bool-cases (i == addr)) [
          | inl same ↦ let e : i ≡ addr = ground arith in rw e (ground arith)
          | inr other ↦ rest.unused i (ground arith) (omega arith)
        ];
      })
      (λ _. record {
        short = omega arith;
        inside = λ p. absurd (omega arith);
        unused = λ i p q. absurd (omega arith);
      })

-- The place of a region before the search: in the framebuffer, and of 1 to 256 bytes, no more than remain.
pub record Place (remaining addr len : ℕ) : Type 0 where
  pub inside : addr + len ≤ fb_size
  pub some_bytes : 0 < len
  pub short : len ≤ 256
  pub within : len ≤ remaining

pub random_place-Place :
    (remaining seed : ℕ)
    → 0 < remaining
    → let p = random_place remaining seed in Place remaining p.0 p.1
unfolding random_place
random_place-Place remaining seed lt =
    let x = (stress_rand seed).0 in
    let y = (stress_rand (stress_rand seed).1).0 in
    let addr = x % fb_size in
    let max_len = min (min (fb_size - addr) 256) remaining in
    let some_room : 0 < max_len = omega arith in
    let below = mod-lt y some_room in
    record {
      inside = omega arith;
      some_bytes = omega arith;
      short = omega arith;
      within = omega arith;
    }

-- The place that the mode gives, unless the search ends the frame.
pub found-Place :
    (b : Bool) (used : ℕ → Bool) (remaining at wanted : ℕ)
    → Place remaining at wanted
    → let addr = if b then skip_used (fb_size - at) used at else at in
      let len = if b then free_run wanted used addr else wanted in
      (b && (leb fb_size addr || len == 0)) ≡ false
      → Place remaining addr len × (b ≡ true → (i : ℕ) → addr ≤ i → i < addr + len → used i ≡ false)
found-Place true used remaining at wanted p g =
    let addr = skip_used (fb_size - at) used at in
    let free = free_run-Free wanted used addr in
    let some_bytes : 0 < free_run wanted used addr = ground arith in
    (
      record {
        inside = free.inside some_bytes;
        some_bytes = some_bytes;
        short = omega (arith, free.short, p.short);
        within = omega (arith, free.short, p.within);
      },
      λ _. free.unused,
    )
found-Place false used remaining at wanted p g = (p, λ t. absurd (cc))

random_data-IsBytes : (len i seed : ℕ) → IsBytes (random_data len i seed).0
unfolding random_data
random_data-IsBytes zero i seed j = omega arith
random_data-IsBytes (suc len) i seed j =
    let x = (stress_rand seed).0 in
    ground (arith, bit_and_0xff x, random_data-IsBytes len (i + 1) (stress_rand seed).1 j)

pub stress_data-IsBytes : (use_rle : Bool) (len seed : ℕ) → IsBytes (stress_data use_rle len seed).0
unfolding stress_data
stress_data-IsBytes use_rle len seed =
    let (x, seed1) = stress_rand seed in
    let (y, seed2) = stress_rand seed1 in
    let after = if use_rle then seed2 else seed1 in
    if_ind (λ (q : Buffer × ℕ). IsBytes q.0) (use_rle && y % 3 == 0) (λ _. bit_and x 255, after)
      (random_data len 0 after) (λ _ j. omega (arith, bit_and_0xff x))
      (λ _. random_data-IsBytes len 0 after)
