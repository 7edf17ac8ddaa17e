-- ===== src/Examples/Tools.antt =====
-- The patterns of the tools, and a frame in the calibration tool's buffer.
use p4_hmd.Base.{◌+◌, ◌*◌, ◌≡◌, refl, arith, true, false, ltb, leb, ◌&&◌}
use p4_hmd.Base.{if◌then◌else◌, List, [], length, some}
use p4_hmd.Update.Packet.{PacketHeader}
use p4_hmd.Update.Display.{draw_all, shown}
use p4_hmd.Update.Receiver.{receive}
use p4_hmd.Update.Encoder.{fb_size}
use p4_hmd.Update.Encoder.Correct.{Shows}
use p4_hmd.Driver.State.{bit}
use p4_hmd.Driver.Buffer.Laws.{all_bytes}
use p4_hmd.Driver.Buffer.Wire.{last_flags}
use p4_hmd.Tools.Patterns.{text, generate_pattern}
use p4_hmd.Tools.Patterns.Pixels.{pixel}
use p4_hmd.Tools.Patterns.Shown.{lights, generate_pattern-lights}
use p4_hmd.Tools.FillPattern.{arrow, color, fill_pattern, fill_pattern_lem}
use p4_hmd.Tools.Calibrate.{FrameBuffer, frame_buffer_used, encode_diff_to_buffer}
use p4_hmd.Tools.Calibrate.Frames.{Encoded, encode_diff_to_buffer-receive}
use p4_hmd.Examples.Inputs.{bar, bar-IsBytes, blank_screen, blank_screen-IsBytes}

generate_pattern-lights_example :
    pixel (generate_pattern 10 text 0) 11 5 ≡ bit (lights 10 text 0 11 5)
generate_pattern-lights_example = generate_pattern-lights 10 text 0 11 5 (omega arith) (omega arith)

fill_pattern_lem_example : fill_pattern blank_screen 720 280 2880 arrow (140 * 720 + 350) ≡ (
    if ltb 350 720 && ltb 140 280
    then color 720 280 arrow 350 140
    else blank_screen (140 * 720 + 350))
fill_pattern_lem_example =
    fill_pattern_lem blank_screen 720 280 2880 arrow 350 140 (omega arith) (omega arith)

abbrev empty_frame : FrameBuffer
empty_frame = record { bytes = []; packet_count = 0 }

blank_shown : Shows false blank_screen blank_screen 0 fb_size
unfolding shown
blank_shown i p q = refl

encode_diff_to_buffer-receive_example :
    (ps : List PacketHeader) × Encoded
      (leb (frame_buffer_used empty_frame + length (all_bytes ps)) 262144)
      empty_frame
      ps
      (encode_diff_to_buffer 262144 false blank_screen bar true empty_frame)
    × (receive (length ps) (all_bytes ps) (blank_screen, 0)
        ≡ some (draw_all ps blank_screen, last_flags 0 ps))
    × Shows false (draw_all ps blank_screen) bar 0 fb_size
encode_diff_to_buffer-receive_example =
    encode_diff_to_buffer-receive 262144 false true blank_screen bar blank_screen 0 empty_frame
      blank_screen-IsBytes bar-IsBytes (omega arith) blank_shown
