-- ===== src/Tools/PatternTest.antt =====
-- run_pattern_test of kmod/p4_calibrate.c: the frames of its patterns, encoded and sent one after the
-- other. Its times and its messages are left out.
pub mod Carried
pub mod Framed
pub mod Sequence
pub mod Shown
use p4_hmd.Base.{ℕ, zero, suc, ◌+◌, ◌*◌, ◌-◌, Bool, true, false, ◌&&◌, ltb, ◌==◌, go_on}
use p4_hmd.Base.{if◌then◌else◌, List, [], ◌∷◌, take, Option, none, some}
use p4_hmd.Update.Word.{Buffer}
use p4_hmd.Update.Encoder.{fb_size}
use p4_hmd.Tools.Patterns.{Pattern, white, animate, generate_pattern}
use p4_hmd.Tools.Calibrate.{
  FrameBuffer, frame_buffer_used, encode_diff_to_buffer, encode_full_to_buffer,
}
use p4_hmd.Tools.Spi.{Calls, Line, wait_ready_edge, send_frame_buffer_timed}

-- The options that the test reads: `stripe_count`, `pattern_frames` and `pattern_bitrev`.
pub record Options : Type 0 where
  pub stripe_count : ℕ
  pub pattern_frames : ℕ
  pub pattern_bitrev : Bool

-- `enable` is the level of ENABLE, and the last fields are the variables of the test.
pub record Session : Type 0 where
  pub line : Line
  pub enable : Bool
  pub frame_buffer : FrameBuffer
  pub cumulative_bytes_sent : ℕ
  pub old_fb : Buffer
  pub total_packets : ℕ
  pub total_ready_waits : ℕ

abbrev pub frame_buffer_size : ℕ
frame_buffer_size = 262144

-- The variables at the start.
abbrev pub fresh_session : Line → Bool → Session
fresh_session line enable = record {
  line = line;
  enable = enable;
  frame_buffer = record { bytes = []; packet_count = 0 };
  cumulative_bytes_sent = 0;
  old_fb = λ _. 0;
  total_packets = 0;
  total_ready_waits = 0;
}

-- The exit on an error: ENABLE goes low.
abbrev pub give_up : Session → Bool × Session
give_up s = (false, record s { enable = false })

-- `frame_buffer_used = 0`
abbrev pub emptied : FrameBuffer → FrameBuffer
emptied f = record f { bytes = [] }

-- `memcmp(a, b, n) == 0`
unfoldable pub same_bytes : ℕ → Buffer → Buffer → Bool
same_bytes zero a b = true
same_bytes (suc n) a b = a n == b n && same_bytes n a b

-- `strcmp(current_pattern, "animate") == 0`
abbrev pub is_animate : Pattern → Bool
is_animate animate = true
is_animate _ = false

-- What follows `send_frame_buffer_timed`, by the waits that it returned.
abbrev pub after_send : Session → Option ℕ → FrameBuffer × ℕ × Line → Bool × Session
after_send s (some waits) (f, sum, line) = (
  true,
  record s {
    line = line;
    frame_buffer = f;
    cumulative_bytes_sent = sum;
    total_ready_waits = s.total_ready_waits + waits;
  },
)
after_send s none (f, sum, line) =
    give_up (record s { line = line; frame_buffer = f; cumulative_bytes_sent = sum })

-- What follows the encoder, by the count of packets that it returned, before `next`.
abbrev pub after_encode :
    Session → Option ℕ → FrameBuffer → (Session → Bool × Session) → Bool × Session
after_encode s (some packets) f next =
    next (record s { frame_buffer = f; total_packets = s.total_packets + packets })
after_encode s none f next = give_up (record s { frame_buffer = f })

module _ (os : Calls) where
  unfoldable pub send_frames : Session → Bool × Session
  send_frames s =
      let (waits, f, sum, line) =
        send_frame_buffer_timed os s.frame_buffer s.cumulative_bytes_sent s.line in
      after_send s waits (f, sum, line)

  -- What is left of an animation.
  unfoldable pub flush_frames : Pattern → Session → Bool × Session
  flush_frames pattern s =
      if is_animate pattern && ltb 0 (frame_buffer_used s.frame_buffer)
      then send_frames s
      else (true, s)

module _ (os : Calls) (options : Options) where
  -- The first frame of the first pattern.
  unfoldable pub first_frame : Pattern → Buffer → Session → Bool × Session
  first_frame pattern fb s =
      let (packets, f) =
        encode_full_to_buffer frame_buffer_size options.pattern_bitrev fb true
          (emptied s.frame_buffer) in
      after_encode s packets f (λ s'. if is_animate pattern then (true, s') else send_frames os s')

  -- A frame of the animation; it is sent when the buffer is getting full.
  unfoldable pub animate_frame : Buffer → Session → Bool × Session
  animate_frame fb s =
      let (packets, f) =
        encode_diff_to_buffer frame_buffer_size options.pattern_bitrev s.old_fb fb true
          s.frame_buffer in
      after_encode s packets f (λ s'.
        if ltb (frame_buffer_size - 20000) (frame_buffer_used s'.frame_buffer)
        then send_frames os s'
        else (true, s'))

  -- A frame of any other pattern; the total of packets is not read before the frame is sent.
  unfoldable pub diff_frame : ℕ → Buffer → Session → Bool × Session
  diff_frame frame fb s =
      let (packets, f) =
        encode_diff_to_buffer frame_buffer_size options.pattern_bitrev s.old_fb fb (frame == 0)
          (emptied s.frame_buffer) in
      let sent = after_encode s packets f (send_frames os) in
      if same_bytes fb_size s.old_fb fb then (true, s) else sent

  -- A round of the loop over frames; `first` says that the pattern is the first.
  unfoldable pub pattern_frame : Bool → Pattern → ℕ → Session → Bool × Session
  pattern_frame first pattern frame s =
      let fb = generate_pattern options.stripe_count pattern frame in
      let shown =
        if first && frame == 0
        then first_frame pattern fb s
        else (if is_animate pattern then animate_frame fb s else diff_frame frame fb s) in
      go_on shown (λ s'. (true, record s' { old_fb = fb }))

  unfoldable pub pattern_loop : ℕ → Bool → Pattern → ℕ → Session → Bool × Session
  pattern_loop zero first pattern frame s = (true, s)
  pattern_loop (suc left) first pattern frame s =
      go_on (pattern_frame first pattern frame s) (pattern_loop left first pattern (frame + 1))

  unfoldable pub show_pattern : Bool → Pattern → Session → Bool × Session
  show_pattern first pattern s =
      go_on (pattern_loop options.pattern_frames first pattern 0 s) (flush_frames os pattern)

  unfoldable pub show_patterns : Bool → List Pattern → Session → Bool × Session
  show_patterns first [] s = (true, s)
  show_patterns first (pattern ∷ rest) s =
      go_on (show_pattern first pattern s) (show_patterns false rest)

  -- `enabled` is the state after `gpio_enable_set(1)`; a device that does not get ready is left so.
  unfoldable pub run_enabled : List Pattern → Session → Bool × Session
  run_enabled patterns enabled =
      let (ready, line) = wait_ready_edge os enabled.line in
      let s = record enabled { line = record line { ready_samples = [] } } in
      let shown =
        go_on (show_patterns true patterns s) (λ s'. (true, record s' { enable = false })) in
      if ready then shown else (false, record enabled { line = line })

  -- Whether 0 is returned. `allocated` says whether all of `malloc` and `strdup` give memory, and
  -- `listed` are the patterns that the option names.
  unfoldable pub run_pattern_test : Bool → List Pattern → Line → Bool → Bool × Session
  run_pattern_test allocated listed line enable =
      let s = fresh_session line enable in
      let run = run_enabled (take 32 listed) (record s { enable = true }) in
      if allocated then (elim listed [ [] ↦ (false, s) | _ ↦ run ]) else (false, s)
