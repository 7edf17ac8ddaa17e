-- ===== src/Update/Rle/Scan.antt =====
-- One round of `find_rle`: where the run that a word ends in starts, and where it ends.
use native.Mathlib.Decide.{dec_lt, ℕ_discrete}
use p4_hmd.Base.{ℕ, zero, suc, ◌+◌, ◌-◌, ◌*◌, ◌/◌, ◌≤◌, ◌<◌, ◌≡◌, ◌≢◌, sym, ◌∙◌, arith}
use p4_hmd.Base.{true, leb, ltb, ◌==◌, ◌&&◌, Bool-cases}
use p4_hmd.Base.{inl, inr, ◌⊎◌, if_ind, bit_and}
use p4_hmd.Base.{bit_xor}
use p4_hmd.Base.Bits.{bit_and_seven}
use p4_hmd.Update.Word.{Buffer, IsBytes, at, load64, spread}
use p4_hmd.Update.Word.Agree.{last_byte-bytes_value}
use p4_hmd.Update.Word.Located.{load64-spread-AgreesAt}
use p4_hmd.Update.Rle.{trailing_match, end_byte, end_match, run_start, tail_run, run_end}

-- All bytes of `[a, b)` are `byte`.
abbrev pub Constant : Buffer → ℕ → ℕ → ℕ → Type 0
Constant buf byte a b = (j : ℕ) → a ≤ j → j < b → buf j ≡ byte

module _ (buf : Buffer) (hb : IsBytes buf) (len : ℕ) where
  end_byte_lem : (w : ℕ) → end_byte buf len w ≡ buf (w * 8 + 7)
  end_byte_lem w = unfold end_byte load64 in last_byte-bytes_value (at buf (w * 8)) (λ j. hb _)

  pub end_byte-lt : (w : ℕ) → end_byte buf len w < 256
  end_byte-lt w = rw (end_byte_lem w) (hb _)

  match-Constant :
      (byte i : ℕ)
      → byte < 256
      → let t = trailing_match (bit_xor (load64 buf i) (spread byte)) in
        (t ≤ 8) × Constant buf byte (i * 8 + 8 - t) (i * 8 + 8)
  match-Constant byte i h =
      unfold trailing_match in
      let a = load64-spread-AgreesAt buf byte i hb h in
      let x = bit_xor (load64 buf i) (spread byte) in
      elim (Bool-cases (x == 0)) [
        | inl z ↦ rw z (omega arith, λ j p q. a.same (ground arith) j (omega arith) q)
        | inr z ↦ rw z (a.tzb_le, λ j p q. a.high j q (omega (arith, a.tzb_le)))
      ]

  -- What is known of `w` and `lit_start` between two rounds.
  abbrev pub Ready : ℕ → ℕ → Type 0
  Ready w lit = (lit ≤ w * 8) ⊎ ((lit < w * 8 + 8) × ((m : ℕ) → m + 1 ≡ lit → buf m ≢ buf lit))

  pub record Started (lit w start : ℕ) : Type 0 where
    pub after : lit ≤ start
    pub before : start < w * 8 + 8
    pub same : Constant buf (end_byte buf len w) start (w * 8 + 8)

  pub run_start-Started :
      (lit w : ℕ) → Ready w lit → 0 < end_match buf len w → Started lit w (run_start buf len lit w)
  unfolding run_start
  run_start-Started lit w ready pos =
      if_ind (Started lit w) _ _ _
        (λ c. if_ind (Started lit w) _ _ _ (λ d. extended c d) (λ d. plain)) (λ c. plain)
    where
      byte : ℕ
      byte = end_byte buf len w

      same : Constant buf byte (w * 8 + 8 - end_match buf len w) (w * 8 + 8)
      same = unfold end_match in (match-Constant byte w (end_byte-lt w)).1

      short : end_match buf len w ≤ 8
      short = unfold end_match in (match-Constant byte w (end_byte-lt w)).0

      prev : ℕ
      prev = trailing_match (bit_xor (load64 buf (w - 1)) (spread byte))

      plain_after : Ready w lit → lit ≤ (w + 1) * 8 - end_match buf len w
      plain_after (inl h) = omega (arith, short)
      plain_after (inr (h, ne)) = elim (dec_lt ((w + 1) * 8 - end_match buf len w) lit) [
        | yes k ↦
            let before : buf (lit - 1) ≡ byte =
              same (lit - 1) (omega (arith, short)) (omega arith) in
            let here : buf lit ≡ byte = same lit (omega (arith, short)) h in
            absurd (ne (lit - 1) (omega arith) (before ∙ sym here))
        | no k ↦ omega arith
      ]

      plain : Started lit w ((w + 1) * 8 - end_match buf len w)
      plain = record {
        after = plain_after ready;
        before = omega (arith, short);
        same = λ j p q. same j (omega (arith, short)) q;
      }

      extended :
          (end_match buf len w == 8 && ltb 0 w && ltb lit ((w + 1) * 8 - end_match buf len w)
            ≡ true)
          → (ltb 0 prev && leb lit (w * 8 - prev) ≡ true)
          → Started lit w (w * 8 - prev)
      extended c d =
          let m = match-Constant byte (w - 1) (end_byte-lt w) in
          let w_pos : 0 < w = ground arith in
          record {
            after = ground arith;
            before = omega arith;
            same = λ j p q. elim (dec_lt j (w * 8)) [
              | yes k ↦ m.1 j (omega (arith, m.0)) (omega arith)
              | no k ↦ same j (ground (arith)) q
            ];
          }

  module _ (byte : ℕ) (hbyte : byte < 256) where
    tail_run-Constant :
        (left m base : ℕ)
        → let r = tail_run buf len byte left (at buf base) m in
          (m ≤ r) × (r ≤ m + left) × Constant buf byte (base + m) (base + r)
    unfolding tail_run
    tail_run-Constant zero m base = (omega arith, omega arith, λ j p q. absurd (omega arith))
    tail_run-Constant (suc left) m base =
        let rest = tail_run-Constant left (m + 1) base in
        elim (Bool-cases (buf (base + m) == byte)) [
          | inl z ↦
              rw (z, tail_run)
                (
                  omega (arith, rest.0),
                  omega (arith, rest.1),
                  λ j p q. elim (ℕ_discrete j (base + m)) [
                    | yes k ↦ rw k (ground arith)
                    | no k ↦ rest.2 j (omega arith) q
                  ],
                )
          | inr z ↦ rw (z, tail_run) (omega arith, omega arith, λ j p q. absurd (omega arith))
        ]

    pub record Stopped (wend end : ℕ) : Type 0 where
      pub after : wend * 8 ≤ end
      pub within : end ≤ len
      pub same : Constant buf byte (wend * 8) end
      pub stop : end < len / 8 * 8 → buf end ≢ byte

    pub run_end-Stopped :
        (left wend : ℕ) → wend + left ≡ len / 8 → Stopped wend (run_end buf len byte left wend)
    unfolding run_end
    run_end-Stopped zero wend e =
        let m = bit_and_seven len in
        let t = tail_run-Constant (bit_and len 7) 0 (len / 8 * 8) in
        record {
          after = omega arith;
          within = omega (arith, t.1);
          same = λ j p q. t.2 j (omega arith) q;
          stop = λ h. absurd (omega arith);
        }
    run_end-Stopped (suc left) wend e =
        let x = bit_xor (load64 buf wend) (spread byte) in
        let a = load64-spread-AgreesAt buf byte wend hb hbyte in
        elim (Bool-cases (x == 0)) [
          | inl z ↦
              let rest = run_end-Stopped left (wend + 1) (omega arith) in
              rw (z, run_end)
                record {
                  after = omega (arith, rest.after);
                  within = rest.within;
                  same = λ j p q. elim (dec_lt j (wend * 8 + 8)) [
                    | yes k ↦ a.same (ground arith) j p k
                    | no k ↦ rest.same j (omega arith) q
                  ];
                  stop = rest.stop;
                }
          | inr z ↦
              let nz : x ≢ 0 = ground arith in
              rw (z, run_end)
                record {
                  after = omega arith;
                  within = omega (arith, a.lzb_le);
                  same = λ j p q. a.low j p q;
                  stop = λ h. a.low_stop nz;
                }
        ]
