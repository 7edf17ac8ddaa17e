-- ===== src/Update/Rle/Runs.antt =====
-- What `find_rle` reports: the runs and literals follow one another from the first byte to the last,
-- each with the bytes of the buffer.
use native.Mathlib.Decide.{dec_lt}
use p4_hmd.Base.{ℕ, zero, suc, ◌+◌, ◌-◌, ◌*◌, ◌/◌, ◌≤◌, ◌<◌, ◌≡◌, ◌≢◌, refl, sym, ◌∙◌, arith}
use p4_hmd.Base.{true, false, List, [], ◌∷◌, ◌++◌, leb, ltb, ◌==◌, Bool-cases}
use p4_hmd.Base.{inl, inr, feed, feed_around, go_on_pure, ◌>>>◌, if◌then◌else◌}
use p4_hmd.Update.Word.{Buffer, IsBytes}
use p4_hmd.Update.Rle.{
  Run, RleCb, literal, repeated, end_byte, end_match, run_start, run_end, next_word, emit_literal,
  runs_from, find_rle,
}
use p4_hmd.Update.Rle.Scan.{
  end_byte-lt, Ready, Started, run_start-Started, Stopped, run_end-Stopped,
}

-- The byte at `j` that a run stands for.
abbrev pub expand : Run → ℕ → ℕ
expand r j = r.bytes (if r.is_rle then 0 else j)

module _ (buf : Buffer) (min_run : ℕ) where
  -- The run stands for `r.len` bytes of the buffer, and is long enough if it is repeated.
  pub record IsRun (r : Run) : Type 0 where
    pub some_bytes : 0 < r.len
    pub faithful : (j : ℕ) → j < r.len → expand r j ≡ buf (r.offset + j)
    pub long : r.is_rle ≡ true → min_run ≤ r.len

  -- The runs cover `[a, b)`, in order and without a gap.
  abbrev pub Partition : ℕ → ℕ → List Run → Type 0
  Partition a b [] = a ≡ b
  Partition a b (r ∷ rs) = (r.offset ≡ a) × IsRun r × Partition (a + r.len) b rs

  literal-IsRun : (a b : ℕ) → a < b → IsRun (literal buf a b)
  literal-IsRun a b h = record { some_bytes = omega arith; faithful = λ j k. refl; long = λ e. cc }

module _ (buf : Buffer) (len min_run : ℕ) where
  -- The literal of `[a, b)`, if there is one.
  abbrev spans : ℕ → ℕ → List Run
  spans a b = if ltb a b then literal buf a b ∷ [] else []

  -- The reported runs and literals, in the order of the scan.
  run_list : ℕ → ℕ → ℕ → List Run
  run_list zero w lit = spans lit len
  run_list (suc fuel) w lit =
      let words = len >>> 3 in
      let byte = end_byte buf len w in
      let start = run_start buf len lit w in
      let end = run_end buf len byte (words - (w + 1)) (w + 1) in
      elim (ltb w words) [
        | false ↦ spans lit len
        | true ↦ elim (end_match buf len w == 0) [
          | true ↦ run_list fuel (w + 1) lit
          | false ↦ elim (leb min_run (end - start)) [
            | true ↦
                spans lit start
                ++ (repeated byte start end ∷ run_list fuel (next_word buf len start end) end)
            | false ↦ run_list fuel (w + 1) lit
          ]
        ]
      ]

  emit_literal-feed {ℓ} :
      {S : Type ℓ} (cb : RleCb S) (a b : ℕ) (s : S)
      → emit_literal buf len min_run cb a b s ≡ feed cb (spans a b) s
  unfolding emit_literal
  emit_literal-feed cb a b s = elim (Bool-cases (ltb a b)) [
    | inl z ↦ rw (z, spans) (sym (go_on_pure (cb (literal buf a b) s)))
    | inr z ↦ rw (z, spans)
  ]

  runs_from-feed {ℓ} :
      {S : Type ℓ} (cb : RleCb S) (fuel w lit : ℕ) (s : S)
      → runs_from buf len min_run cb fuel w lit s ≡ feed cb (run_list fuel w lit) s
  unfolding runs_from run_list
  runs_from-feed cb zero w lit s = emit_literal-feed cb lit len s
  runs_from-feed cb (suc fuel) w lit s =
      let words = len >>> 3 in
      let byte = end_byte buf len w in
      let start = run_start buf len lit w in
      let end = run_end buf len byte (words - (w + 1)) (w + 1) in
      elim (Bool-cases (ltb w words)) [
        | inr z ↦ rw (z, runs_from, run_list) (emit_literal-feed cb lit len s)
        | inl z ↦ elim (Bool-cases (end_match buf len w == 0)) [
          | inl y ↦
              rw (z, runs_from, run_list)
                (rw (y, runs_from, run_list) (runs_from-feed cb fuel (w + 1) lit s))
          | inr y ↦ elim (Bool-cases (leb min_run (end - start))) [
            | inr x ↦
                rw (z, runs_from, run_list)
                  (rw (y, runs_from, run_list)
                    (rw (x, runs_from, run_list) (runs_from-feed cb fuel (w + 1) lit s)))
            | inl x ↦
                let next = next_word buf len start end in
                rw (z, runs_from, run_list)
                  (rw (y, runs_from, run_list)
                    (rw (x, runs_from, run_list)
                      (feed_around cb (spans lit start) (repeated byte start end)
                        (run_list fuel next end) s _ _ (emit_literal-feed cb lit start s)
                        (λ t. runs_from-feed cb fuel next end t))))
          ]
        ]
      ]

module _ (buf : Buffer) (hb : IsBytes buf) (len min_run : ℕ) where
  spans-Partition :
      (a b c : ℕ) (rs : List Run)
      → a ≤ b
      → Partition buf min_run b c rs
      → Partition buf min_run a c (spans buf len min_run a b ++ rs)
  spans-Partition a b c rs h p = elim (dec_lt a b) [
    | yes k ↦
        let z : ltb a b ≡ true = ground arith in
        let e : a + (b - a) ≡ b = omega arith in
        rw (z, spans) (refl, literal-IsRun buf min_run a b k, rw e p)
    | no k ↦
        let z : ltb a b ≡ false = ground arith in
        let e : a ≡ b = omega arith in rw (z, spans) (rw e p)
  ]

  last_literal :
      (lit : ℕ) → lit ≤ len → Partition buf min_run lit len (spans buf len min_run lit len)
  last_literal lit h = elim (dec_lt lit len) [
    | yes k ↦
        let z : ltb lit len ≡ true = ground arith in
        rw (z, spans) (refl, literal-IsRun buf min_run lit len k, omega arith)
    | no k ↦ let z : ltb lit len ≡ false = ground arith in rw (z, spans) (omega arith)
  ]

  run-Partition :
      (lit w start end c : ℕ) (rs : List Run)
      → Started buf hb len lit w start
      → Stopped buf hb len (end_byte buf len w) (end_byte-lt buf hb len w) (w + 1) end
      → min_run ≤ end - start
      → Partition buf min_run end c rs
      → Partition buf min_run lit c
          (spans buf len min_run lit start ++ (repeated (end_byte buf len w) start end ∷ rs))
  run-Partition lit w start end c rs st en long p =
      let e : start + (end - start) ≡ end = omega (arith, st.before, en.after) in
      spans-Partition lit start c _ st.after (
        refl,
        record {
          some_bytes = omega (arith, st.before, en.after);
          faithful = λ j k. elim (dec_lt (start + j) (w * 8 + 8)) [
            | yes q ↦ sym (st.same (start + j) (omega arith) q)
            | no q ↦ sym (en.same (start + j) (omega arith) (omega arith))
          ];
          long = λ _. long;
        },
        rw e p,
      )

  next_word_lem :
      (start end w : ℕ)
      → start < w * 8 + 8
      → (w + 1) * 8 ≤ end
      → next_word buf len start end ≡ end / 8
  unfolding next_word
  next_word_lem start end w h k = ground arith

  next_word-Ready :
      (lit w start end : ℕ)
      → Started buf hb len lit w start
      → Stopped buf hb len (end_byte buf len w) (end_byte-lt buf hb len w) (w + 1) end
      → end / 8 < len / 8
      → Ready buf hb len (end / 8) end
  next_word-Ready lit w start end st en h = inr (
    omega arith,
    λ m k. elim (dec_lt m (w * 8 + 8)) [
      | yes q ↦ λ e. differs (sym e ∙ st.same m (omega (arith, st.before, en.after)) q)
      | no q ↦ λ e. differs (sym e ∙ en.same m (omega arith) (omega arith))
    ],
  )
    where
      differs : buf end ≢ end_byte buf len w
      differs = en.stop (omega arith)

  Ready-suc : (lit w : ℕ) → Ready buf hb len w lit → Ready buf hb len (w + 1) lit
  Ready-suc lit w (inl h) = inl (omega arith)
  Ready-suc lit w (inr (h, d)) = inl (omega arith)

  run_list-Partition :
      (fuel w lit : ℕ)
      → len / 8 ≤ w + fuel
      → lit ≤ len
      → (w < len / 8 → Ready buf hb len w lit)
      → Partition buf min_run lit len (run_list buf len min_run fuel w lit)
  unfolding run_list
  run_list-Partition zero w lit f h ready = last_literal lit h
  run_list-Partition (suc fuel) w lit f h ready =
      let words = len >>> 3 in
      let byte = end_byte buf len w in
      let start = run_start buf len lit w in
      let end = run_end buf len byte (words - (w + 1)) (w + 1) in
      elim (Bool-cases (ltb w words)) [
        | inr z ↦ rw (z, run_list) (last_literal lit h)
        | inl z ↦
            let inside : w < len / 8 = ground arith in
            let skip =
              run_list-Partition fuel (w + 1) lit (omega arith) h
                (λ _. Ready-suc lit w (ready inside)) in
            elim (Bool-cases (end_match buf len w == 0)) [
              | inl y ↦ rw (z, run_list) (rw (y, run_list) skip)
              | inr y ↦ elim (Bool-cases (leb min_run (end - start))) [
                | inr x ↦ rw (z, run_list) (rw (y, run_list) (rw (x, run_list) skip))
                | inl x ↦
                    let st = run_start-Started buf hb len lit w (ready inside) (ground arith) in
                    let en =
                      run_end-Stopped buf hb len byte (end_byte-lt buf hb len w) (words - (w + 1))
                        (w + 1) (omega arith) in
                    let n = next_word_lem start end w st.before en.after in
                    let rest =
                      run_list-Partition fuel (end / 8) end (omega (arith, en.after)) en.within
                        (λ q. next_word-Ready lit w start end st en q) in
                    rw (z, run_list)
                      (rw (y, run_list)
                        (rw (x, run_list)
                          (rw n (run-Partition lit w start end len _ st en (ground arith) rest))))
              ]
            ]
      ]

-- The runs and literals of a buffer, in the order of the scan.
pub rle_runs : Buffer → ℕ → ℕ → List Run
rle_runs buf len min_run =
    if len == 0
    then []
    else (if ltb len 8 then literal buf 0 len ∷ [] else run_list buf len min_run (len >>> 3) 0 0)

pub find_rle-feed {ℓ} :
    {S : Type ℓ} (buf : Buffer) (len min_run : ℕ) (cb : RleCb S) (s : S)
    → find_rle buf len min_run cb s ≡ feed cb (rle_runs buf len min_run) s
unfolding find_rle rle_runs
find_rle-feed buf len min_run cb s = elim (Bool-cases (len == 0)) [
  | inl z ↦ rw z
  | inr z ↦ elim (Bool-cases (ltb len 8)) [
    | inl y ↦ rw (z, y) (sym (go_on_pure (cb (literal buf 0 len) s)))
    | inr y ↦ rw (z, y) (runs_from-feed buf len min_run cb (len >>> 3) 0 0 s)
  ]
]

pub rle_runs-Partition :
    (buf : Buffer) (len min_run : ℕ)
    → IsBytes buf
    → Partition buf min_run 0 len (rle_runs buf len min_run)
unfolding rle_runs
rle_runs-Partition buf len min_run hb = elim (Bool-cases (len == 0)) [
  | inl z ↦ rw z (ground arith)
  | inr z ↦ elim (Bool-cases (ltb len 8)) [
    | inl y ↦ rw (z, y) (refl, literal-IsRun buf min_run 0 len (ground arith), omega arith)
    | inr y ↦
        rw (z, y)
          (run_list-Partition buf hb len min_run (len >>> 3) 0 0 (omega arith) (omega arith)
            (λ _. inl (omega arith)))
  ]
]

-- For any buffer, length and callback, what `find_rle` reports is a partition of the buffer: each
-- byte belongs to exactly one run or literal, which stands for that byte, and a run is `min_run`
-- bytes long at least.
pub find_rle-Partition {ℓ} :
    {S : Type ℓ} (buf : Buffer) (len min_run : ℕ) (cb : RleCb S) (s : S)
    → IsBytes buf
    → (rs : List Run) × (find_rle buf len min_run cb s ≡ feed cb rs s)
      × Partition buf min_run 0 len rs
find_rle-Partition buf len min_run cb s hb = (
  rle_runs buf len min_run,
  find_rle-feed buf len min_run cb s,
  rle_runs-Partition buf len min_run hb,
)
