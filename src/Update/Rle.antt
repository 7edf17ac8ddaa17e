-- ===== src/Update/Rle.antt =====
-- `find_rle` of kmod/update.c: a buffer cut into runs of one byte and literal spans.
pub mod Scan
pub mod Runs
use p4_hmd.Base.{
  ℕ, zero, suc, ◌+◌, ◌-◌, ◌*◌, ◌/◌, ◌%◌, ◌^◌, ◌>>>◌, Bool, true, false, ◌==◌, ltb, leb,
}
use p4_hmd.Base.{bit_xor, bit_and, ◌||◌, ◌&&◌, go_on, if◌then◌else◌}
use p4_hmd.Update.Word.{Buffer, at, load64, lzb, tzb, last_byte, spread}

-- The arguments of an `rle_cb`: for a run `bytes` points to the one byte that is repeated.
pub record Run : Type 0 where
  pub offset : ℕ
  pub bytes : Buffer
  pub len : ℕ
  pub is_rle : Bool

abbrev pub RleCb {ℓ} : Type ℓ → Type ℓ
RleCb S = Run → S → Bool × S

abbrev pub literal : Buffer → ℕ → ℕ → Run
literal buf start end = record {
  offset = start;
  bytes = at buf start;
  len = end - start;
  is_rle = false;
}

abbrev pub repeated : ℕ → ℕ → ℕ → Run
repeated byte start end = record {
  offset = start;
  bytes = λ _. byte;
  len = end - start;
  is_rle = true;
}

-- `x ? TZB(x) : 8`
pub trailing_match : ℕ → ℕ
trailing_match xored = if xored == 0 then 8 else tzb xored

module _ (buf : Buffer) (len : ℕ) where
  -- The word at `w` against the byte at its end.
  pub end_byte : ℕ → ℕ
  end_byte w = last_byte (load64 buf w)

  pub end_match : ℕ → ℕ
  end_match w = trailing_match (bit_xor (load64 buf w) (spread (end_byte w)))

  -- `run_start`, with the extension backwards into the word before.
  pub run_start : ℕ → ℕ → ℕ
  run_start lit_start w =
      let trailing = end_match w in
      let start = (w + 1) * 8 - trailing in
      let prev = trailing_match (bit_xor (load64 buf (w - 1)) (spread (end_byte w))) in
      if trailing == 8 && ltb 0 w && ltb lit_start start
      then (if ltb 0 prev && leb lit_start (w * 8 - prev) then w * 8 - prev else start)
      else start

  -- `while (tail_match < tail && tail_ptr[tail_match] == byte) tail_match++`, with
  -- `tail - tail_match` rounds left.
  pub tail_run : ℕ → ℕ → Buffer → ℕ → ℕ
  tail_run byte zero tail_ptr tail_match = tail_match
  tail_run byte (suc left) tail_ptr tail_match = elim (tail_ptr tail_match == byte) [
    | true ↦ tail_run byte left tail_ptr (tail_match + 1)
    | false ↦ tail_match
  ]

  -- The loop that computes `run_end` from `wend` on, with `words - wend` rounds left.
  pub run_end : ℕ → ℕ → ℕ → ℕ
  run_end byte zero wend =
      let words = len >>> 3 in words * 8 + tail_run byte (bit_and len 7) (at buf (words * 8)) 0
  run_end byte (suc left) wend =
      let next_xor = bit_xor (load64 buf wend) (spread byte) in
      elim (next_xor == 0) [ true ↦ run_end byte left (wend + 1) | false ↦ wend * 8 + lzb next_xor ]

  -- Where the scan goes on after a run.
  pub next_word : ℕ → ℕ → ℕ
  next_word start end = let w = end >>> 3 in if leb w (start >>> 3) then w + 1 else w

  module _ {ℓ} {S : Type ℓ} (min_run : ℕ) (cb : RleCb S) where
    -- `if (b > a) { if (!cb(a, buf + a, b - a, false, ctx)) return false; }`
    pub emit_literal : ℕ → ℕ → S → Bool × S
    emit_literal a b s = if ltb a b then cb (literal buf a b) s else (true, s)

    -- The main loop, and the literal after it. Each round moves `w` on, so `words - w` rounds are
    -- enough.
    pub runs_from : ℕ → ℕ → ℕ → S → Bool × S
    runs_from zero w lit_start s = emit_literal lit_start len s
    runs_from (suc fuel) w lit_start s =
        let words = len >>> 3 in
        let byte = end_byte w in
        let start = run_start lit_start w in
        let end = run_end byte (words - (w + 1)) (w + 1) in
        elim (ltb w words) [
          | false ↦ emit_literal lit_start len s
          | true ↦ elim (end_match w == 0) [
            | true ↦ runs_from fuel (w + 1) lit_start s
            | false ↦ elim (leb min_run (end - start)) [
              | true ↦ go_on (emit_literal lit_start start s) λ s'.
                  go_on (cb (repeated byte start end) s')
                    λ s''. runs_from fuel (next_word start end) end s''
              | false ↦ runs_from fuel (w + 1) lit_start s
            ]
          ]
        ]

unfoldable pub find_rle {ℓ} : {S : Type ℓ} → Buffer → ℕ → ℕ → RleCb S → S → Bool × S
unfolding runs_from
find_rle buf len min_run cb s =
    if len == 0
    then (true, s)
    else (if ltb len 8
        then cb (literal buf 0 len) s
        else runs_from buf len min_run cb (len >>> 3) 0 0 s)
