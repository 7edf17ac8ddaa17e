-- ===== src/Examples/Session.antt =====
-- The calibration tool with a device that is ready, and a run of the driver from a new card on.
use p4_hmd.Base.{◌-◌, ◌<◌, ◌≡◌, refl, arith, true, false, ltb, [], ◌∷◌, some, take, ◌≢◌, inr}
use mathlib.Core.Bool.{xor}
use p4_hmd.Driver.State.{Device, flags_byte}
use p4_hmd.Driver.Drainer.{drainer_round}
use p4_hmd.Driver.Drainer.Flags.{FlagsEnd, drainer_round-FlagsEnd}
use p4_hmd.Driver.Lifecycle.{p4_sender_probe, drainer_start, p4_sender_signal_vsync}
use p4_hmd.Driver.Dpms.{dpms_off, p4_dpms_set}
use p4_hmd.Pipe.Probe.{
  Card, Answers, p4_vblank_probe, p4_backlight_probe, register_card, start_card, p4_probe,
}
use p4_hmd.Pipe.Run.{Run, then_do, vsync, round, dpms}
use p4_hmd.Pipe.Run.Invariant.{IsValid}
use p4_hmd.Pipe.Run.Start.{p4_probe-IsValid}
use p4_hmd.Pipe.Run.Kept.{Run-IsValid}
use p4_hmd.Tools.Patterns.{white, animate, generate_pattern}
use p4_hmd.Tools.Spi.{Calls, event, Line, spi_send_bytes_timed}
use p4_hmd.Tools.Spi.Sent.{Sending, wire, spi_send_bytes_timed-Sending}
use p4_hmd.Tools.PatternTest.{Options, run_pattern_test}
use p4_hmd.Tools.PatternTest.Sequence.{last_pattern}
use p4_hmd.Tools.PatternTest.Shown.{Ending, run_pattern_test-Ending}
use p4_hmd.Examples.Inputs.{upright, good_link}
use p4_hmd.Examples.Machine.{pairs, plain_mono}

abbrev ready_calls : Calls
ready_calls = record {
  line_value = λ n. some 1;
  pending = λ n. 0;
  poll = λ n. event;
  read_ok = λ n. true;
  transfer_ok = λ n. true;
  malloc_ok = λ n. true;
}

abbrev idle_line : Line
idle_line = record { calls = 0; events = []; ready_samples = [] }

spi_send_bytes_timed-Sending_example :
    Sending (62 ∷ 0 ∷ []) idle_line (spi_send_bytes_timed ready_calls (62 ∷ 0 ∷ []) 0 idle_line)
spi_send_bytes_timed-Sending_example =
    spi_send_bytes_timed-Sending ready_calls (62 ∷ 0 ∷ []) 0 idle_line (omega arith)

abbrev two_frames : Options
two_frames = record { stripe_count = 10; pattern_frames = 2; pattern_bitrev = false }

two_frames-some : 0 < two_frames.pattern_frames
two_frames-some = omega arith

run_pattern_test-Ending_example :
    Ending ready_calls two_frames
      (wire idle_line.events)
      two_frames-some
      (generate_pattern 10 (last_pattern white (take 31 (animate ∷ []))) (2 - 1))
      (run_pattern_test ready_calls two_frames true (white ∷ animate ∷ []) idle_line false)
run_pattern_test-Ending_example =
    run_pattern_test-Ending ready_calls two_frames true white (animate ∷ []) idle_line false
      two_frames-some

upright-IsValid : IsValid upright
unfolding xor
upright-IsValid = record {
  exclusive = omega arith;
  mode = refl;
  flip = refl;
  target = refl;
  refresh = λ off. absurd (cc);
  room = omega arith;
  placed = omega arith;
  frame = λ j. ground arith;
  candidate = λ j. omega arith;
  reference = λ j. omega arith;
}

-- A vsync, the round that it wakes, and a powerdown that waits for another round.
abbrev after_round : Device → Device
after_round s = drainer_round true good_link s

round_runs : (s : Device) → Run plain_mono pairs s (after_round s)
round_runs s = round true good_link s

abbrev woken : Device
woken = p4_sender_signal_vsync true upright

abbrev powered_down : Device
powered_down = p4_dpms_set false after_round dpms_off (after_round woken)

evening : Run plain_mono pairs upright powered_down
evening = then_do upright woken powered_down (vsync true upright) (
    then_do woken (after_round woken) powered_down (round_runs woken)
      (dpms false after_round dpms_off (after_round woken) round_runs))

Run-IsValid_example : IsValid powered_down
Run-IsValid_example = Run-IsValid plain_mono pairs upright powered_down evening upright-IsValid

abbrev new_card : Card
new_card = record {
  vblank = record {
    p4 = record upright { display_connected = false; drainer = false };
    enabled = false;
    hw_vsync_seen = false;
    last_vsync_jiffies = 0;
    timer_on = false;
    irq_on = false;
    periods = 0;
    vblank_count = 0;
  };
  backlight = false;
  registered = false;
}

abbrev all_well : Answers
all_well = record {
  dma_mask = true;
  dma_coerced = true;
  spi_set_up = true;
  allocated = true;
  upside_down = true;
  sysfs_added = true;
  buffers = true;
  sender_acquired = true;
  clock = record { msecs_to_jiffies = λ n. n; jiffies_to_msecs = λ n. n; time_before = ltb };
  now = 5;
  after = 65;
  handshake = (good_link 0).handshake;
  started = true;
  ready = true;
  ready_after = true;
  vblank_acquired = true;
  backlight_registered = true;
  mode_config_ready = true;
  connector_ready = true;
  pipe_ready = true;
  vblank_ready = true;
  drm_registered = true;
}

new_card-probed : (p4_probe (λ s. s) all_well new_card).0 ≡ true
unfolding p4_probe start_card register_card p4_vblank_probe p4_backlight_probe p4_sender_probe
    drainer_start
new_card-probed = refl

p4_probe-IsValid_example : IsValid (p4_probe (λ s. s) all_well new_card).1.vblank.p4
p4_probe-IsValid_example = p4_probe-IsValid (λ s. s) all_well new_card new_card-probed

-- The user has dimmed the display, and nothing is drawn.
abbrev dimmed : Device
dimmed = record upright {
  dirty = false;
  last_sent_flags = 0;
  display_flags = record {
    low_intensity = true;
    blank = false;
    standby = false;
    upside_down = false;
  };
}

dimmed-flags : flags_byte dimmed.display_flags ≢ dimmed.last_sent_flags
unfolding flags_byte
dimmed-flags = omega arith

drainer_round-FlagsEnd_example :
    FlagsEnd true good_link dimmed (drainer_round true good_link dimmed)
drainer_round-FlagsEnd_example =
    drainer_round-FlagsEnd true good_link dimmed refl refl refl refl (inr refl) dimmed-flags
