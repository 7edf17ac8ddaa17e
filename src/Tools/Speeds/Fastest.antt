-- ===== src/Tools/Speeds/Fastest.antt =====
-- What the search for the fastest clock finds.
use p4_hmd.Base.{ℕ, zero, suc, ◌+◌, ◌-◌, ◌*◌, ◌≡◌, ◌≢◌, ◌≤◌, ◌<◌, inl, inr, refl, ap, arith}
use p4_hmd.Base.{Bool, true, false, not, ◌&&◌, ◌==◌, ltb, leb, if_ind, Bool-cases, if◌then◌else◌}
use p4_hmd.Base.{List, [], ◌∷◌, ◌++◌, length, All, take}
use p4_hmd.Tools.Speeds.{
  SpiDriver, get_actual_speed, max_speeds, last_probe, probe_step, discover_from, discover_speeds,
  test_speeds, find_max_speed,
}

-- The speeds of the probes from `probe` on: each is the driver's answer to a later probe than the one
-- before it and within the range, works there, and differs from the one before it.
pub data Discovered (spi : SpiDriver) : ℕ → ℕ → List ℕ → Type 0 where
  no_more : {probe last : ℕ} → Discovered spi probe last []
  next :
      {probe last : ℕ} (at : ℕ) {xs : List ℕ}
      → probe ≤ at
      → at ≤ last_probe
      → 0 < get_actual_speed spi at
      → get_actual_speed spi at ≢ last
      → Discovered spi (suc at) (get_actual_speed spi at) xs
      → Discovered spi probe last (get_actual_speed spi at ∷ xs)

Discovered-later :
    (spi : SpiDriver) (p q last : ℕ) (xs : List ℕ)
    → p ≤ q
    → Discovered spi q last xs
    → Discovered spi p last xs
Discovered-later spi p q last [] le no_more = no_more
Discovered-later spi p q last (x ∷ xs) le (next at a b c d h) = next at (omega arith) b c d h

-- What a list of speeds from a probe on promises, when there is room for `room`.
abbrev Found : SpiDriver → ℕ → ℕ → ℕ → List ℕ → Type 0
Found spi probe last room xs = Discovered spi probe last xs × (length xs ≤ room)

discover_from-Found :
    (spi : SpiDriver) (fuel room probe last : ℕ)
    → Found spi probe last room (discover_from spi fuel room probe last)
unfolding discover_from
discover_from-Found spi zero room probe last = (no_more, omega arith)
discover_from-Found spi (suc fuel) room probe last =
    let actual = get_actual_speed spi probe in
    let is_new = ltb 0 actual && not (actual == last) in
    let rest = λ (r l : ℕ). discover_from spi fuel r (probe + probe_step) l in
    let same = discover_from-Found spi fuel room (probe + probe_step) last in
    let more = discover_from-Found spi fuel (room - 1) (probe + probe_step) actual in
    if_ind (Found spi probe last room) (leb probe last_probe && ltb 0 room) _ []
      (λ go. elim (Bool-cases is_new) [
        | inl t ↦ rw t (
          next probe (omega arith) (ground arith) (ground arith) (ground arith) (
              Discovered-later spi (suc probe) (probe + probe_step) actual (rest (room - 1) actual)
                (omega arith) more.0),
          ground (arith, more.1),
        )
        | inr f ↦ rw f (
          Discovered-later spi probe (probe + probe_step) last (rest room last) (omega arith)
              same.0,
          same.1,
        )
      ])
      (λ _. (no_more, omega arith))

-- The driver's answers to `n` requests, each 1 MHz above the one before it, up to 125 MHz.
abbrev pub answers : SpiDriver → ℕ → ℕ → List ℕ
answers spi zero probe = []
answers spi (suc n) probe =
    let rest = answers spi n (probe + 1000000) in
    if leb probe 125000000 then get_actual_speed spi probe ∷ rest else []

-- Those that are not 0, without one that is equal to the one kept before it, at first `last`.
abbrev pub changes : ℕ → List ℕ → List ℕ
changes last [] = []
changes last (x ∷ xs) =
    let skipped = changes last xs in
    let kept = changes x xs in if ltb 0 x && not (x == last) then x ∷ kept else skipped

discover_from_lem :
    (spi : SpiDriver) (fuel room probe last : ℕ)
    → discover_from spi fuel room probe last ≡ take room (changes last (answers spi fuel probe))
unfolding discover_from
discover_from_lem spi zero zero probe last = refl
discover_from_lem spi zero (suc room) probe last = refl
discover_from_lem spi (suc fuel) zero probe last =
    let none : (leb probe last_probe && ltb 0 0) ≡ false = ground arith in rw none refl
discover_from_lem spi (suc fuel) (suc room) probe last =
    let actual = get_actual_speed spi probe in
    let has_room : ltb 0 (suc room) ≡ true = ground arith in
    let less : suc room - 1 ≡ room = omega arith in
    elim (Bool-cases (leb probe 125000000)) [
      | inl t ↦ elim (Bool-cases (ltb 0 actual && not (actual == last))) [
        | inl new ↦
            rw (t, new, has_room, less)
              (ap (λ xs. actual ∷ xs) (discover_from_lem spi fuel room (probe + probe_step) actual))
        | inr old ↦
            rw (t, old, has_room) (discover_from_lem spi fuel (suc room) (probe + probe_step) last)
      ]
      | inr f ↦ rw f refl
    ]

-- More rounds than there are probes change nothing.
discover_from-enough :
    (spi : SpiDriver) (fuel more room probe last : ℕ)
    → last_probe < probe + fuel * probe_step
    → discover_from spi (fuel + more) room probe last ≡ discover_from spi fuel room probe last
unfolding discover_from
discover_from-enough spi zero zero room probe last h = refl
discover_from-enough spi zero (suc more) room probe last h =
    let past : (leb probe last_probe && ltb 0 room) ≡ false = ground arith in
    let e : 0 + suc more ≡ suc more = omega arith in rw (e, past) refl
discover_from-enough spi (suc fuel) more room probe last h =
    let e : suc fuel + more ≡ suc (fuel + more) = omega arith in
    let ih =
      λ (r l : ℕ). discover_from-enough spi fuel more r (probe + probe_step) l (omega arith) in
    let actual = get_actual_speed spi probe in
    let is_new = ltb 0 actual && not (actual == last) in
    rw (e, ih (if is_new then room - 1 else room) (if is_new then actual else last)) refl

-- The last of a list, or `x`.
abbrev pub last_or : ℕ → List ℕ → ℕ
last_or x [] = x
last_or x (y ∷ ys) = last_or y ys

-- The first of the speeds, if there is one, fails its test.
abbrev pub FirstFails : (ℕ → Bool) → List ℕ → Type 0
FirstFails test [] = Unit
FirstFails test (x ∷ xs) = test x ≡ false

test_speeds-Fastest :
    (test : ℕ → Bool) (xs : List ℕ) (x : ℕ)
    → (good rest : List ℕ) × (xs ≡ good ++ rest)
      × All (λ y. test y ≡ true) good
      × FirstFails test rest
      × (test_speeds test xs x ≡ last_or x good)
unfolding test_speeds
test_speeds-Fastest test [] x = ([], [], refl, tt, tt, refl)
test_speeds-Fastest test (y ∷ ys) x =
    let (good, rest, e, passed, failed, best) = test_speeds-Fastest test ys y in
    elim (Bool-cases (test y)) [
      | inl t ↦ (y ∷ good, rest, ap (λ zs. y ∷ zs) e, (t, passed), failed, rw t best)
      | inr f ↦ ([], y ∷ ys, refl, tt, f, rw f refl)
    ]

-- The speeds to be tested are the first 64 of the driver's answers to the requests 1 MHz apart from
-- the start to 125 MHz, less those that are 0 or equal to the one before. So each is what the driver makes of a request between the start
-- and 125 MHz, in the order of the requests, none is 0 and no two neighbours are equal; more rounds
-- would find no others. The result of `find_max_speed` is the last speed before the first that fails
-- its test, or the last of all, or 0 if already the first fails.
pub find_max_speed-Fastest :
    (spi : SpiDriver) (test : ℕ → Bool) (start : ℕ)
    → (good rest : List ℕ) × (discover_speeds spi max_speeds start ≡ good ++ rest)
      × Discovered spi start 0 (discover_speeds spi max_speeds start)
      × (discover_speeds spi max_speeds start ≡ take 64 (changes 0 (answers spi 126 start)))
      × (length (discover_speeds spi max_speeds start) ≤ 64)
      × ((more : ℕ)
          → discover_from spi (126 + more) max_speeds start 0
            ≡ discover_speeds spi max_speeds start)
      × All (λ x. test x ≡ true) good
      × FirstFails test rest
      × (find_max_speed spi test start ≡ last_or 0 good)
unfolding discover_speeds find_max_speed
find_max_speed-Fastest spi test start =
    let (good, rest, e, passed, failed, best) =
      test_speeds-Fastest test (discover_from spi 126 64 start 0) 0 in
    let found = discover_from-Found spi 126 64 start 0 in
    (
      good,
      rest,
      e,
      found.0,
      discover_from_lem spi 126 64 start 0,
      found.1,
      λ more. discover_from-enough spi 126 more 64 start 0 (omega arith),
      passed,
      failed,
      best,
    )
