-- ===== src/Update/Diffs.antt =====
-- `find_diffs` of kmod/update.c: the differing regions of two buffers, word by word. The callback
-- with its context is a function on the context's state that says whether to go on.
pub mod Regions
use p4_hmd.Base.{
  ℕ, zero, suc, ◌+◌, ◌-◌, ◌*◌, ◌/◌, ◌^◌, u8, ◌>>>◌, Bool, true, false, ◌==◌, ltb, leb,
}
use p4_hmd.Base.{bit_xor, ◌||◌, go_on}
use p4_hmd.Update.Word.{Buffer, load64, lzb, tzb}

-- `diff_cb`, called with `start` and `end`.
abbrev pub DiffCb {ℓ} : Type ℓ → Type ℓ
DiffCb S = ℕ → ℕ → S → Bool × S

module _ (old_buf new_buf : Buffer) where
  -- `old_w[i] ^ new_w[i]`
  pub xor_at : ℕ → ℕ
  xor_at i = bit_xor (load64 old_buf i) (load64 new_buf i)

  -- `while (i < words && xor == 0) i++`, with `words - i` rounds left.
  pub skip_same : ℕ → ℕ → ℕ
  skip_same zero i = i
  skip_same (suc left) i = elim (xor_at i == 0) [ true ↦ skip_same left (i + 1) | false ↦ i ]

  module _ (min_gap : ℕ) where
    -- The inner loop that extends a region, with `words - i` rounds left: the final `i` and
    -- `trailing`.
    pub extend : ℕ → ℕ → ℕ → ℕ × ℕ
    extend zero i trailing = (i, trailing)
    extend (suc left) i trailing =
        let xored = xor_at i in
        elim (xored == 0 || leb min_gap (trailing + lzb xored)) [
          | true ↦ (i, trailing)
          | false ↦ extend left (i + 1) (u8 (tzb xored))
        ]

    module _ {ℓ} {S : Type ℓ} (cb : DiffCb S) (words : ℕ) where
      -- The outer loop. Each round moves `i` on, so `words - i` rounds are enough.
      pub diffs_from : ℕ → ℕ → S → Bool × S
      diffs_from zero i s = (true, s)
      diffs_from (suc fuel) i s =
          let i0 = skip_same (words - i) i in
          let xored = xor_at i0 in
          let start = i0 * 8 + lzb xored in
          let (i1, trailing) = extend (words - (i0 + 1)) (i0 + 1) (u8 (tzb xored)) in
          elim (leb words i0) [
            | true ↦ (true, s)
            | false ↦ go_on (cb start (i1 * 8 - trailing) s) (λ s'. diffs_from fuel i1 s')
          ]

unfoldable pub find_diffs {ℓ} : {S : Type ℓ} → Buffer → Buffer → ℕ → ℕ → DiffCb S → S → Bool × S
unfolding diffs_from
find_diffs old_buf new_buf len min_gap cb s =
    let words = len >>> 3 in diffs_from old_buf new_buf min_gap cb words words 0 s
