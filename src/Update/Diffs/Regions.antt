-- ===== src/Update/Diffs/Regions.antt =====
-- What `find_diffs` reports: every region between two reported ones, before the first and after the
-- last is the same in both buffers, each reported region begins and ends with a differing byte, and
-- regions are apart by the gap.
use native.Mathlib.Decide.{dec_lt, ℕ_discrete}
use p4_hmd.Base.{
  ℕ, zero, suc, ◌+◌, ◌-◌, ◌*◌, ◌/◌, ◌≤◌, ◌<◌, ◌≡◌, ◌≢◌, refl, ap, fun_ext, arith, u8, ◌>>>◌,
}
use p4_hmd.Base.{
  Bool, true, false, List, [], ◌∷◌, leb, ◌==◌, ◌||◌, Bool-cases, inl, inr, feed, go_on,
}
use p4_hmd.Update.Word.{Buffer, IsBytes, lzb, tzb}
use p4_hmd.Update.Word.Located.{AgreesAt, load64-AgreesAt}
use p4_hmd.Update.Diffs.{DiffCb, xor_at, skip_same, extend, diffs_from, find_diffs}

abbrev pub Region : Type 0
Region = ℕ × ℕ

abbrev pub call {ℓ} : {S : Type ℓ} → DiffCb S → Region → S → Bool × S
call cb (start, end) s = cb start end s

module _ (old new : Buffer) where
  abbrev pub SameOn : ℕ → ℕ → Type 0
  SameOn a b = (j : ℕ) → a ≤ j → j < b → old j ≡ new j

  -- A run of `gap` equal bytes within a region does not cross the border of a word.
  abbrev pub IsTight : ℕ → ℕ → ℕ → Type 0
  IsTight gap start end =
      (j : ℕ) → start ≤ j → j + gap ≤ end → SameOn j (j + gap) → j + gap ≤ j / 8 * 8 + 8

  -- The regions cover every difference of `[a, len)`, and the first one starts at `lo` or later.
  abbrev pub Covers : ℕ → ℕ → ℕ → ℕ → List Region → Type 0
  Covers gap len lo a [] = SameOn a len
  Covers gap len lo a ((start, end) ∷ ds) =
      (lo ≤ start)
      × (a ≤ start)
      × (start < end)
      × (end ≤ len)
      × SameOn a start
      × (old start ≢ new start)
      × ((m : ℕ) → suc m ≡ end → old m ≢ new m)
      × IsTight gap start end
      × Covers gap len (end + gap) end ds

module _ (old new : Buffer) (ho : IsBytes old) (hn : IsBytes new) where
  agrees : (i : ℕ) → AgreesAt old new i (xor_at old new i)
  agrees i = unfold xor_at in load64-AgreesAt old new i ho hn

  record Skipped (words i i0 : ℕ) : Type 0 where
    forward : i ≤ i0
    within : i0 ≤ words
    same : SameOn old new (i * 8) (i0 * 8)
    stopped : i0 < words → xor_at old new i0 ≢ 0

  skip_same-Skipped :
      (words left i : ℕ) → i + left ≡ words → Skipped words i (skip_same old new left i)
  unfolding skip_same
  skip_same-Skipped words zero i e = record {
    forward = omega arith;
    within = omega arith;
    same = λ j h k. absurd (omega arith);
    stopped = λ h. absurd (omega arith);
  }
  skip_same-Skipped words (suc left) i e = elim (Bool-cases (xor_at old new i == 0)) [
    | inl z ↦
        let rest = skip_same-Skipped words left (i + 1) (omega arith) in
        rw (z, skip_same)
          record {
            forward = omega (arith, rest.forward);
            within = rest.within;
            same = λ j h k. elim (dec_lt j (i * 8 + 8)) [
              | yes p ↦ (agrees i).same (ground arith) j h p
              | no p ↦ rest.same j (omega arith) k
            ];
            stopped = rest.stopped;
          }
    | inr z ↦
        rw (z, skip_same)
          record {
            forward = omega arith;
            within = omega arith;
            same = λ j h k. absurd (omega arith);
            stopped = λ h. ground arith;
          }
  ]

  -- A region that ends `trailing` bytes before word `i`.
  record Ended (i trailing : ℕ) : Type 0 where
    below : trailing < 8
    inside : trailing < i * 8
    same : (j : ℕ) → i * 8 ≤ j + trailing → j < i * 8 → old j ≡ new j
    last : (m : ℕ) → m + 1 + trailing ≡ i * 8 → old m ≢ new m

  word-Ended : (i : ℕ) → xor_at old new i ≢ 0 → Ended (i + 1) (u8 (tzb (xor_at old new i)))
  word-Ended i ne =
      let a = agrees i in
      let p = a.apart ne in
      let e : u8 (tzb (xor_at old new i)) ≡ tzb (xor_at old new i) = omega arith in
      rw e record {
        below = omega arith;
        inside = omega arith;
        same = λ j h k. a.high j (omega arith) (omega arith);
        last = λ m k. a.high_stop m ne (omega arith);
      }

  module _ (gap words : ℕ) where
    -- Two differences before and behind the border of word `w`, less than the gap apart.
    abbrev Joined : ℕ → Type 0
    Joined w =
        (p q : ℕ) × (p < w * 8) × (w * 8 ≤ q) × (q ≤ p + gap) × (old p ≢ new p) × (old q ≢ new q)

    Joined-IsTight :
        (start end first last : ℕ)
        → first * 8 ≤ start
        → end ≤ last * 8
        → ((w : ℕ) → first < w → w < last → Joined w)
        → IsTight old new gap start end
    Joined-IsTight start end first last a b h j from to same =
        let w = j / 8 + 1 in
        elim (dec_lt (w * 8) (j + gap)) [
          | no le ↦ omega arith
          | yes lt ↦
              let (p, q, before, behind, near, dp, dq) = h w (omega arith) (omega arith) in
              elim (dec_lt p j) [
                | no ge ↦ absurd (dp (same p (omega arith) (omega arith)))
                | yes less ↦ absurd (dq (same q (omega arith) (omega arith)))
              ]
        ]

    record Extended (i trailing : ℕ) (r : ℕ × ℕ) : Type 0 where
      forward : i ≤ r.0
      within : r.0 ≤ words
      ended : Ended r.0 r.1
      shrinks : i * 8 ≤ r.0 * 8 - r.1 + trailing
      joined : (w : ℕ) → i ≤ w → w < r.0 → Joined w
      apart :
          gap ≤ 8
          → (m : ℕ) → r.0 ≤ m
          → m < words
          → xor_at old new m ≢ 0
          → r.0 * 8 - r.1 + gap ≤ m * 8 + lzb (xor_at old new m)

    joins :
        (i trailing : ℕ)
        → Ended i trailing
        → xor_at old new i ≢ 0
        → trailing + lzb (xor_at old new i) < gap
        → Joined i
    joins i trailing h nz less =
        let x = xor_at old new i in
        (
          i * 8 - (trailing + 1),
          i * 8 + lzb x,
          omega (arith, h.inside),
          omega arith,
          omega (arith, h.inside),
          h.last (i * 8 - (trailing + 1)) (omega (arith, h.inside)),
          (agrees i).low_stop nz,
        )

    extend-Extended :
        (left i trailing : ℕ)
        → i + left ≡ words
        → Ended i trailing
        → Extended i trailing (extend old new gap left i trailing)
    unfolding extend
    extend-Extended zero i trailing e h = record {
      forward = omega arith;
      within = omega arith;
      ended = h;
      shrinks = omega arith;
      joined = λ w p q. absurd (omega arith);
      apart = λ g m p q ne. absurd (omega arith);
    }
    extend-Extended (suc left) i trailing e h =
        let x = xor_at old new i in
        elim (Bool-cases (x == 0 || leb gap (trailing + lzb x))) [
          | inl z ↦
              rw (z, extend)
                record {
                  forward = omega arith;
                  within = omega arith;
                  ended = h;
                  shrinks = omega arith;
                  joined = λ w p q. absurd (omega arith);
                  apart = λ g m p q ne. elim (ℕ_discrete m i) [
                    | yes k ↦
                        let nz : x ≢ 0 = rw k at ne in rw k (ground (arith, h.below, h.inside))
                    | no k ↦ omega (arith, h.below)
                  ];
                }
          | inr z ↦
              let nz : x ≢ 0 = ground arith in
              let rest =
                extend-Extended left (i + 1) (u8 (tzb x)) (omega arith) (word-Ended i nz) in
              rw (z, extend)
                record {
                  forward = omega (arith, rest.forward);
                  within = rest.within;
                  ended = rest.ended;
                  shrinks = omega (arith, rest.shrinks, (word-Ended i nz).below);
                  joined = λ w p q. elim (ℕ_discrete w i) [
                    | yes k ↦ rw k (joins i trailing h nz (ground arith))
                    | no k ↦ rest.joined w (omega arith) q
                  ];
                  apart = rest.apart;
                }
        ]

    -- The reported regions, in the order of the scan.
    abbrev regions_from : ℕ → ℕ → List Region
    regions_from zero i = []
    regions_from (suc fuel) i =
        let i0 = skip_same old new (words - i) i in
        let x = xor_at old new i0 in
        let r = extend old new gap (words - (i0 + 1)) (i0 + 1) (u8 (tzb x)) in
        let rest = regions_from fuel (r.0) in
        elim (leb words i0) [ true ↦ [] | false ↦ (i0 * 8 + lzb x, r.0 * 8 - r.1) ∷ rest ]

    diffs_from-feed {ℓ} :
        {S : Type ℓ} (cb : DiffCb S) (fuel i : ℕ) (s : S)
        → diffs_from old new gap cb words fuel i s ≡ feed (call cb) (regions_from fuel i) s
    unfolding diffs_from
    diffs_from-feed cb zero i s = refl
    diffs_from-feed cb (suc fuel) i s =
        let i0 = skip_same old new (words - i) i in
        let x = xor_at old new i0 in
        let r = extend old new gap (words - (i0 + 1)) (i0 + 1) (u8 (tzb x)) in
        elim (Bool-cases (leb words i0)) [
          | inl z ↦ rw (z, diffs_from, regions_from)
          | inr z ↦
              rw (z, diffs_from, regions_from)
                (ap (go_on (cb (i0 * 8 + lzb x) (r.0 * 8 - r.1) s))
                  (fun_ext λ s'. diffs_from-feed cb fuel (r.0) s'))
        ]

    -- `lo` bounds the next region from below.
    abbrev Room : ℕ → ℕ → Type 0
    Room lo i =
        (m : ℕ) → i ≤ m → m < words → xor_at old new m ≢ 0 → lo ≤ m * 8 + lzb (xor_at old new m)

    regions_from-Covers :
        (fuel lo a i : ℕ)
        → gap ≤ 8
        → words ≤ i + fuel
        → i ≤ words
        → a ≤ i * 8
        → SameOn old new a (i * 8)
        → Room lo i
        → Covers old new gap (words * 8) lo a (regions_from fuel i)
    regions_from-Covers zero lo a i g f w h same room = λ j p q. same j p (omega arith)
    regions_from-Covers (suc fuel) lo a i g f w h same room =
        let i0 = skip_same old new (words - i) i in
        let x = xor_at old new i0 in
        let r = extend old new gap (words - (i0 + 1)) (i0 + 1) (u8 (tzb x)) in
        let sk = skip_same-Skipped words (words - i) i (omega arith) in
        let gapless : SameOn old new a (i0 * 8) = λ j p q. elim (dec_lt j (i * 8)) [
          | yes k ↦ same j p k
          | no k ↦ sk.same j (omega arith) q
        ] in
        elim (Bool-cases (leb words i0)) [
          | inl z ↦ rw (z, regions_from) (λ j p q. gapless j p (ground (arith, sk.within)))
          | inr z ↦
              let below : i0 < words = ground arith in
              let ne : x ≢ 0 = sk.stopped below in
              let ag = agrees i0 in
              let fits = ag.apart ne in
              let we = word-Ended i0 ne in
              let ext = extend-Extended (words - (i0 + 1)) (i0 + 1) (u8 (tzb x)) (omega arith) we in
              rw (z, regions_from)
                (
                  room i0 (sk.forward) below ne,
                  omega (arith, sk.forward),
                  omega (arith, ext.shrinks, ext.ended),
                  omega (arith, ext.within),
                  λ j p q. elim (dec_lt j (i0 * 8)) [
                    | yes k ↦ gapless j p k
                    | no k ↦ ag.low j (omega arith) q
                  ],
                  ag.low_stop ne,
                  λ m k. ext.ended.last m (omega (arith, ext.ended.inside)),
                  Joined-IsTight _ _ i0 r.0 (omega arith) (omega arith)
                      (λ w p q. ext.joined w (omega arith) q),
                  regions_from-Covers fuel (r.0 * 8 - r.1 + gap) (r.0 * 8 - r.1) (r.0) g
                      (omega (arith, ext.forward, sk.forward)) (ext.within) (omega arith)
                      (λ j p q. ext.ended.same j (omega arith) q) (ext.apart g),
                )
        ]

-- The regions that `find_diffs` reports do not depend on the callback. With a gap of at most a word
-- they cover every difference in the whole words of the buffers, in increasing order; each begins
-- and ends with a difference, and two are `min_gap` bytes apart at least. `min_gap` equal bytes in a row
-- within a region lie in one word: a region is not extended over such a row into the next word.
pub find_diffs-Covers {ℓ} :
    {S : Type ℓ} (old new : Buffer) (len min_gap : ℕ) (cb : DiffCb S) (s : S)
    → IsBytes old
    → IsBytes new
    → min_gap ≤ 8
    → (ds : List Region) × (find_diffs old new len min_gap cb s ≡ feed (call cb) ds s)
      × Covers old new min_gap (len / 8 * 8) 0 0 ds
unfolding find_diffs
find_diffs-Covers old new len min_gap cb s ho hn g =
    let words = len >>> 3 in
    (
      regions_from old new ho hn min_gap words words 0,
      diffs_from-feed old new ho hn min_gap words cb words 0 s,
      regions_from-Covers old new ho hn min_gap words words 0 0 0 g (omega arith) (omega arith)
          (omega arith) (λ j p q. absurd (omega arith)) (λ m p q ne. omega arith),
    )
