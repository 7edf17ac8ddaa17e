-- ===== src/Tools/Handshake/Ended.antt =====
-- How the connectivity tests leave the device.
use p4_hmd.Base.{ℕ, zero, suc, ◌+◌, ◌≡◌, ◌≤◌, refl, ap, sym, ◌∙◌, arith, subst}
use p4_hmd.Base.{Bool, true, false, if_ind, if◌then◌else◌}
use p4_hmd.Base.{List, [], ◌∷◌, ◌++◌, append-nil, append_assoc}
use p4_hmd.Tools.Calibrate.{build_clear_packet}
use p4_hmd.Tools.Handshake.{
  Board, Pins, read, gpio_enable_set, is_one, is_zero, pulse_reset, verify_enable_ready,
  retry_ready, wait_cold, send_clear, after_clear, test_handshake_iteration, handshake_loop,
  test_cold_flag,
}

-- `k` clear packets, each transferred while ENABLE was high.
abbrev pub clears : ℕ → List (Bool × List ℕ)
clears zero = []
clears (suc k) = (true, build_clear_packet) ∷ clears k

clears-append : (k l : ℕ) → clears k ++ clears l ≡ clears (k + l)
clears-append zero l = let e : 0 + l ≡ l = omega arith in rw e refl
clears-append (suc k) l =
    let e : suc k + l ≡ suc (k + l) = omega arith in
    rw e (ap (λ xs. (true, build_clear_packet) ∷ xs) (clears-append k l))

-- From `s` to `t` nothing was transferred and nothing reset.
record Quiet (s t : Pins) : Type 0 where
  sent : t.sent ≡ s.sent
  resets : t.resets ≡ s.resets

module _ (board : Board) where
  retry_ready-Quiet :
      (left : ℕ) (s : Pins)
      → Quiet s (retry_ready board left s) × ((retry_ready board left s).enable ≡ s.enable)
  unfolding retry_ready
  retry_ready-Quiet zero s = (record { sent = refl; resets = refl }, refl)
  retry_ready-Quiet (suc left) s =
      let (q, e) = retry_ready-Quiet left (read s) in
      if_ind (λ (t : Pins). Quiet s t × (t.enable ≡ s.enable)) (is_one (board.ready s.calls)) _ _
        (λ _. (record { sent = refl; resets = refl }, refl))
        (λ _. (record { sent = q.sent; resets = q.resets }, e))

  wait_cold-Quiet :
      (left : ℕ) (s : Pins)
      → Quiet s (wait_cold board left s) × ((wait_cold board left s).enable ≡ s.enable)
  unfolding wait_cold
  wait_cold-Quiet zero s = (record { sent = refl; resets = refl }, refl)
  wait_cold-Quiet (suc left) s =
      let (q, e) = wait_cold-Quiet left (record s { calls = suc s.calls; slept = s.slept + 1 }) in
      if_ind (λ (t : Pins). Quiet s t × (t.enable ≡ s.enable)) (is_one (board.cold s.calls)) _ _
        (λ _. (record { sent = q.sent; resets = q.resets }, e))
        (λ _. (record { sent = refl; resets = refl }, refl))

  verify_enable_ready-Quiet :
      (s : Pins)
      → Quiet s (verify_enable_ready board s).1 × ((verify_enable_ready board s).1.enable ≡ false)
  unfolding verify_enable_ready
  verify_enable_ready-Quiet s =
      if_ind (λ (r : Bool × Pins). Quiet s r.1 × (r.1.enable ≡ false))
        (is_zero (board.ready s.calls)) _ _ (λ _. (record { sent = refl; resets = refl }, refl))
        (λ _. (record { sent = refl; resets = refl }, refl))

-- What a part of the test leaves: ENABLE is low, `k` clear packets went out and `m` resets were made.
pub record Left (k m : ℕ) (s t : Pins) : Type 0 where
  pub low : t.enable ≡ false
  pub sent : t.sent ≡ s.sent ++ clears k
  pub resets : t.resets ≡ s.resets + m

-- The end of a part that sends `k` packets and makes `m` resets if it succeeds, and not more than that
-- if it fails.
abbrev pub Part : (k m : ℕ) → Pins → Bool × Pins → Type 0
Part k m s (true, t) = Left k m s t
Part k m s (false, t) = (j : ℕ) × (i : ℕ) × (j ≤ k) × (i ≤ m) × Left j i s t

Quiet-Left : (s t : Pins) → Quiet s t → t.enable ≡ false → Left 0 0 s t
Quiet-Left s t q e = record {
  low = e;
  sent = q.sent ∙ sym (append-nil s.sent);
  resets = omega (arith, q.resets);
}

Left-trans : (k m l n : ℕ) (s t u : Pins) → Left k m s t → Left l n t u → Left (k + l) (m + n) s u
Left-trans k m l n s t u a b = record {
  low = b.low;
  sent =
      b.sent
      ∙ ap (λ xs. xs ++ clears l) a.sent
      ∙ append_assoc s.sent (clears k) (clears l)
      ∙ ap (λ xs. s.sent ++ xs) (clears-append k l);
  resets = omega (arith, a.resets, b.resets);
}

-- A part after what `k` and `m` count.
after_Left :
    (k m l n : ℕ) (s t : Pins) (r : Bool × Pins)
    → Left k m s t
    → Part l n t r
    → Part (k + l) (m + n) s r
after_Left k m l n s t (true, u) a b = Left-trans k m l n s t u a b
after_Left k m l n s t (false, u) a (j, i, hj, hi, b) =
    (k + j, m + i, omega arith, omega arith, Left-trans k m j i s t u a b)

-- One part and then another, in the form in which the test goes on.
parts :
    (k m l n : ℕ) (s : Pins) (r : Bool × Pins) (f : Pins → Bool × Pins)
    → Part k m s r
    → ((t : Pins) → t.enable ≡ false → Part l n t (f t))
    → Part (k + l) (m + n) s (if r.0 then f r.1 else (false, r.1))
parts k m l n s (true, t) f a b = after_Left k m l n s t (f t) a (b t a.low)
parts k m l n s (false, t) f (j, i, hj, hi, a) b = (j, i, omega arith, omega arith, a)

failed_quietly : (k m : ℕ) (s t : Pins) → Left 0 0 s t → Part k m s (false, t)
failed_quietly k m s t h = (0, 0, omega arith, omega arith, h)

ended : (k m : ℕ) (s t : Pins) (b : Bool) → Left k m s t → Part k m s (b, t)
ended k m s t true h = h
ended k m s t false h = (k, m, omega arith, omega arith, h)

module _ (board : Board) where
  send_clear-Part : (s : Pins) → Part 1 0 s (send_clear board s)
  unfolding send_clear
  send_clear-Part s =
      let (q, on) = retry_ready-Quiet board 100 (gpio_enable_set true s) in
      let r = retry_ready board 100 (gpio_enable_set true s) in
      let s1 = read r in
      let s2 = read s1 in
      let sent = record s2 {
        sent = s2.sent ++ ((s2.enable, build_clear_packet) ∷ []);
        enable = false;
      } in
      let quiet : Left 0 0 s (record s1 { enable = false }) =
        Quiet-Left s (record s1 { enable = false }) (record { sent = q.sent; resets = q.resets })
          refl in
      if_ind (Part 1 0 s) (is_one (board.ready r.calls))
        (if board.transfer_ok s1.calls then (true, sent) else (false, record s2 { enable = false }))
        (false, record s1 { enable = false })
        (λ _.
          if_ind (Part 1 0 s) (board.transfer_ok s1.calls) (true, sent)
            (false, record s2 { enable = false })
            (λ _. record {
              low = refl;
              sent = λ i. q.sent i ++ ((on i, build_clear_packet) ∷ []);
              resets = omega (arith, q.resets);
            })
            (λ _. (
              0,
              0,
              omega arith,
              omega arith,
              record { low = refl; sent = quiet.sent; resets = quiet.resets },
            )))
        (λ _. failed_quietly 1 0 s (record s1 { enable = false }) quiet)

  verify_enable_ready-Part : (s : Pins) → Part 0 0 s (verify_enable_ready board s)
  verify_enable_ready-Part s =
      let (q, e) = verify_enable_ready-Quiet board s in
      let r = verify_enable_ready board s in ended 0 0 s r.1 r.0 (Quiet-Left s r.1 q e)

  reset_checked :
      (s : Pins)
      → s.enable ≡ false
      → Part 0 1 s (is_one (board.cold (pulse_reset s).calls), read (pulse_reset s))
  unfolding pulse_reset
  reset_checked s low =
      ended 0 1 s (read (pulse_reset s)) (is_one (board.cold (pulse_reset s).calls))
        (record { low = low; sent = sym (append-nil s.sent); resets = omega arith })

  after_clear-Part : (s : Pins) → s.enable ≡ false → Part 0 1 s (after_clear board s)
  unfolding after_clear
  after_clear-Part s low =
      let w = wait_cold board 100 s in
      let (q, e) = wait_cold-Quiet board 100 s in
      let s1 = read w in
      let quiet = Quiet-Left s s1 (record { sent = q.sent; resets = q.resets }) (e ∙ low) in
      if_ind (Part 0 1 s) (is_zero (board.cold w.calls)) _ (false, s1)
        (λ _. after_Left 0 0 0 1 s s1 _ quiet (
          parts 0 0 0 1 s1 (verify_enable_ready board s1)
            (λ t. (is_one (board.cold (pulse_reset t).calls), read (pulse_reset t)))
            (verify_enable_ready-Part s1) reset_checked))
        (λ _. failed_quietly 0 1 s s1 quiet)

  -- From the first look at COLD on.
  abbrev from_cold : Pins → Bool × Pins
  from_cold s1 =
      if is_one (board.cold s1.calls)
      then (if (send_clear board (read s1)).0
          then after_clear board (send_clear board (read s1)).1
          else (false, (send_clear board (read s1)).1))
      else (false, read s1)

  from_cold-Part : (s : Pins) → s.enable ≡ false → Part 1 1 s (from_cold s)
  from_cold-Part s low =
      let looked = Quiet-Left s (read s) (record { sent = refl; resets = refl }) low in
      if_ind (Part 1 1 s) (is_one (board.cold s.calls)) _ (false, read s)
        (λ _. after_Left 0 0 1 1 s (read s) _ looked (
          parts 1 0 0 1 (read s) (send_clear board (read s)) (after_clear board)
            (send_clear-Part (read s)) after_clear-Part))
        (λ _. failed_quietly 1 1 s (read s) looked)

  test_handshake_iteration-Part : (s : Pins) → Part 1 1 s (test_handshake_iteration board s)
  unfolding test_handshake_iteration
  test_handshake_iteration-Part s =
      parts 0 0 1 1 s (verify_enable_ready board s) from_cold (verify_enable_ready-Part s)
        from_cold-Part

  handshake_loop-Part :
      (n : ℕ) (s : Pins) → s.enable ≡ false → Part n n s (handshake_loop board n s)
  unfolding handshake_loop
  handshake_loop-Part zero s low = Quiet-Left s s (record { sent = refl; resets = refl }) low
  handshake_loop-Part (suc n) s low =
      let e : 1 + n ≡ suc n = omega arith in
      subst (λ (k : ℕ). Part k k s (handshake_loop board (suc n) s)) e
        (parts 1 1 n n s (test_handshake_iteration board s) (handshake_loop board n)
          (test_handshake_iteration-Part s) (handshake_loop-Part n))

-- Whatever READY, COLD and the transfers answer: after the test of the handshake ENABLE is low. If it
-- succeeds, the device has got three clear packets, each while ENABLE was high, and three resets, and
-- nothing else; if it fails, not more than three of each.
pub test_cold_flag-Part :
    (board : Board) (s : Pins) → s.enable ≡ false → Part 3 3 s (test_cold_flag board s)
unfolding test_cold_flag
test_cold_flag-Part board s low = handshake_loop-Part board 3 s low
