-- ===== src/Tools/Handshake.antt =====
-- The connectivity tests of kmod/p4_calibrate.c: reset_and_verify, verify_enable_ready,
-- test_handshake_iteration and test_cold_flag. What the pins and the transfers answer is a record of
-- functions of the number of calls made so far.
pub mod Ended
use p4_hmd.Base.{ℕ, zero, suc, ◌+◌, Bool, true, false}
use p4_hmd.Base.{if◌then◌else◌, List, [], ◌∷◌, ◌++◌, Option, none, some}
use p4_hmd.Driver.Link.{reset_assert_ms, reset_settle_ms}
use p4_hmd.Tools.Calibrate.{build_clear_packet}

-- READY and COLD at call `n`, none if the value cannot be read, and whether a transfer succeeds.
pub record Board : Type 0 where
  pub ready : ℕ → Option Bool
  pub cold : ℕ → Option Bool
  pub transfer_ok : ℕ → Bool

-- The output pins, and what the device has seen: the transfers, each with the level of ENABLE, and the
-- resets. `slept` are the milliseconds of `usleep`.
pub record Pins : Type 0 where
  pub calls : ℕ
  pub enable : Bool
  pub nreset : Bool
  pub sent : List (Bool × List ℕ)
  pub resets : ℕ
  pub slept : ℕ

abbrev pub read : Pins → Pins
read s = record s { calls = suc s.calls }

abbrev pub gpio_enable_set : Bool → Pins → Pins
gpio_enable_set level s = record s { enable = level }

-- `value == 1` and `value == 0`
abbrev pub is_one : Option Bool → Bool
is_one (some true) = true
is_one _ = false

abbrev pub is_zero : Option Bool → Bool
is_zero (some false) = true
is_zero _ = false

-- RESET goes low and high again, with the two sleeps.
unfoldable pub pulse_reset : Pins → Pins
pulse_reset s = record s {
  nreset = true;
  resets = suc s.resets;
  slept = s.slept + reset_assert_ms + reset_settle_ms;
}

module _ (board : Board) where
  abbrev pub gpio_ready_get : Pins → Option Bool × Pins
  gpio_ready_get s = (board.ready s.calls, read s)

  abbrev pub gpio_cold_get : Pins → Option Bool × Pins
  gpio_cold_get s = (board.cold s.calls, read s)

  unfoldable pub verify_enable_ready : Pins → Bool × Pins
  verify_enable_ready s =
      let (off, s1) = gpio_ready_get (gpio_enable_set false s) in
      let (on, s2) = gpio_ready_get (gpio_enable_set true s1) in
      if is_zero off then (is_one on, gpio_enable_set false s2) else (false, s1)

  unfoldable pub reset_and_verify : Pins → Bool × Pins
  reset_and_verify s =
      let (ok, s1) = verify_enable_ready (pulse_reset s) in
      let (cold, s2) = gpio_cold_get s1 in if ok then (is_one cold, s2) else (false, s1)

  -- The retries until READY is high; `left` is `retries`.
  unfoldable pub retry_ready : ℕ → Pins → Pins
  retry_ready zero s = s
  retry_ready (suc left) s =
      let (ready, s1) = gpio_ready_get s in
      let rest = retry_ready left s1 in if is_one ready then s1 else rest

  -- The milliseconds in which COLD stays high, `left` at most.
  unfoldable pub wait_cold : ℕ → Pins → Pins
  wait_cold zero s = read s
  wait_cold (suc left) s =
      let (cold, s1) = gpio_cold_get s in
      let rest = wait_cold left (record s1 { slept = s1.slept + 1 }) in
      if is_one cold then rest else s1

  -- Step 3: the clear packet, once READY is high.
  unfoldable pub send_clear : Pins → Bool × Pins
  send_clear s =
      let (ready, s1) = gpio_ready_get (retry_ready 100 (gpio_enable_set true s)) in
      let s2 = read s1 in
      let sent = record s2 { sent = s2.sent ++ ((s2.enable, build_clear_packet) ∷ []) } in
      if is_one ready
      then (if board.transfer_ok s1.calls
          then (true, gpio_enable_set false sent)
          else (false, gpio_enable_set false s2))
      else (false, gpio_enable_set false s1)

  -- From the wait for COLD on.
  unfoldable pub after_clear : Pins → Bool × Pins
  after_clear s =
      let (cold, s1) = gpio_cold_get (wait_cold 100 s) in
      let (ok, s2) = verify_enable_ready s1 in
      let (cold_again, s3) = gpio_cold_get (pulse_reset s2) in
      if is_zero cold then (if ok then (is_one cold_again, s3) else (false, s2)) else (false, s1)

  unfoldable pub test_handshake_iteration : Pins → Bool × Pins
  test_handshake_iteration s =
      let (ok, s1) = verify_enable_ready s in
      let (cold, s2) = gpio_cold_get s1 in
      let (sent, s3) = send_clear s2 in
      let rest = after_clear s3 in
      if ok
      then (if is_one cold then (if sent then rest else (false, s3)) else (false, s2))
      else (false, s1)

  unfoldable pub handshake_loop : ℕ → Pins → Bool × Pins
  handshake_loop zero s = (true, s)
  handshake_loop (suc left) s =
      let (ok, s1) = test_handshake_iteration s in
      let rest = handshake_loop left s1 in if ok then rest else (false, s1)

  abbrev pub handshake_iterations : ℕ
  handshake_iterations = 3

  unfoldable pub test_cold_flag : Pins → Bool × Pins
  test_cold_flag s = handshake_loop handshake_iterations s
