-- ===== src/Examples/Bench.antt =====
-- The calibration tool on the bench: the handshake with a device that answers as it should, the
-- search for the fastest clock, and a stress frame.
use p4_hmd.Base.{
  ℕ, ◌+◌, ◌%◌, ◌/◌, ◌*◌, ◌≤◌, ◌≡◌, refl, true, false, leb, ltb, not, ◌&&◌, ◌||◌, ◌==◌,
}
use p4_hmd.Base.{List, [], ◌++◌, length, All, take, some}
use p4_hmd.Tools.Speeds.{
  SpiDriver, discover_speeds, discover_from, find_max_speed, max_speeds, get_actual_speed,
  test_speeds,
}
use p4_hmd.Tools.Speeds.Fastest.{
  answers, changes, Discovered, FirstFails, last_or, find_max_speed-Fastest,
}
use p4_hmd.Tools.Handshake.{
  Board, Pins, test_cold_flag, handshake_loop, test_handshake_iteration, verify_enable_ready,
  send_clear, retry_ready, after_clear, wait_cold, pulse_reset,
}
use p4_hmd.Tools.Calibrate.{FrameBuffer}
use p4_hmd.Tools.Stress.{StressOptions, nonoverlap}
use p4_hmd.Tools.Handshake.Ended.{Part, test_cold_flag-Part}

-- READY follows ENABLE, and COLD falls after the clear packet and rises after a reset: the calls of an
-- iteration are READY twice, COLD, READY twice, a transfer, COLD twice, READY twice, and COLD.
abbrev lively : Board
lively = record {
  ready = λ n. some (ltb 0 (n % 11) && not (n % 11 == 8));
  cold = λ n. some (leb (n % 11) 2 || n % 11 == 10);
  transfer_ok = λ n. true;
}

abbrev resting : Pins
resting = record { calls = 0; enable = false; nreset = true; sent = []; resets = 0; slept = 0 }

test_cold_flag-Part_example : Part 3 3 resting (test_cold_flag lively resting)
test_cold_flag-Part_example = test_cold_flag-Part lively resting refl

-- A driver that rounds down to 10 MHz.
abbrev coarse : SpiDriver
coarse = record { takes = λ n. true; speed_for = λ n. some (n / 10000000 * 10000000) }

find_max_speed-Fastest_example :
    (good rest : List ℕ) × (discover_speeds coarse max_speeds 8000000 ≡ good ++ rest)
    × Discovered coarse 8000000 0 (discover_speeds coarse max_speeds 8000000)
    × (discover_speeds coarse max_speeds 8000000 ≡ take 64 (changes 0 (answers coarse 126 8000000)))
    × (length (discover_speeds coarse max_speeds 8000000) ≤ 64)
    × ((more : ℕ)
        → discover_from coarse (126 + more) max_speeds 8000000 0
          ≡ discover_speeds coarse max_speeds 8000000)
    × All (λ x. leb x 40000000 ≡ true) good
    × FirstFails (λ x. leb x 40000000) rest
    × (find_max_speed coarse (λ x. leb x 40000000) 8000000 ≡ last_or 0 good)
find_max_speed-Fastest_example = find_max_speed-Fastest coarse (λ x. leb x 40000000) 8000000

-- A frame of 300 bytes without overlap.
abbrev scattered : StressOptions
scattered = record {
  max_bytes = 300;
  use_rle = true;
  mode = nonoverlap;
  bitrev = true;
  buffer_size = 4096;
  malloc_ok = λ n. true;
}

abbrev unwritten : FrameBuffer
unwritten = record { bytes = []; packet_count = 0 }

-- On this bench the test of the handshake succeeds, and 40 MHz is the fastest clock.
handshake_succeeds : (test_cold_flag lively resting).0 ≡ true
unfolding test_cold_flag handshake_loop test_handshake_iteration verify_enable_ready send_clear
    retry_ready after_clear wait_cold pulse_reset
handshake_succeeds = refl

forty_megahertz : find_max_speed coarse (λ x. leb x 40000000) 8000000 ≡ 40000000
unfolding find_max_speed discover_speeds discover_from get_actual_speed test_speeds
forty_megahertz = refl
