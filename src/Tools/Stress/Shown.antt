-- ===== src/Tools/Stress/Shown.antt =====
-- A random stress frame in the tool's buffer, and what the display makes of it.
use p4_hmd.Base.{ℕ, ◌+◌, ◌≡◌, ◌≤◌, length, some, All}
use p4_hmd.Update.Packet.{PacketHeader}
use p4_hmd.Base.{Bool, true, false, List, leb}
use p4_hmd.Update.Word.{Buffer}
use p4_hmd.Update.Receiver.{receive}
use p4_hmd.Update.Encoder.{EncoderState, encoder_init}
use p4_hmd.Update.Encoder.Sends.{Sends}
use p4_hmd.Tools.Stress.{num_lines}
use p4_hmd.Tools.Stress.Striped.{Alternating, striped_bytes}
use p4_hmd.Tools.Stress.Regions.{after_all}
use p4_hmd.Driver.Buffer.Laws.{all_bytes}
use p4_hmd.Driver.Buffer.Wire.{last_flags}
use p4_hmd.Tools.Calibrate.{FrameBuffer, frame_buffer_used}
use p4_hmd.Tools.Calibrate.Frames.{Encoded}
use p4_hmd.Tools.Stress.{
  StressMode, overlap, nonoverlap, lines, StressOptions, stress_emit_packet, stress_regions,
  stress_generate_frame,
}
use p4_hmd.Tools.Stress.Regions.{Region, IsRegion, total, packets_of, paint_all}
use p4_hmd.Tools.Stress.Fits.{Unused}

-- What the regions write: `n` bytes; at most `n` and none twice; or lines of alternating color from the
-- top on, as few as have `n` bytes, or all.
abbrev pub Writes : StressMode → List Region → ℕ → Type 0
Writes overlap ws n = total ws ≡ n
Writes nonoverlap ws n = (total ws ≤ n) × Unused (λ _. false) ws
Writes lines ws n = (total ws ≡ striped_bytes num_lines n) × Alternating 0 ws

abbrev pub stress_packets : StressOptions → Bool → List Region → List PacketHeader
stress_packets o new_frame ws = packets_of (encoder_init 0 new_frame o.bitrev) ws

-- A stress frame as its regions: valid and of the right amount, their packets in the buffer, and these
-- read by a display.
pub record StressFrame (o : StressOptions) (new_frame : Bool) (seed flags : ℕ) (scr : Buffer)
    (f : FrameBuffer) : Type 0 where
  pub regions : List Region
  pub valid : All IsRegion regions
  pub writes : Writes o.mode regions o.max_bytes
  pub encoded :
      let ps = stress_packets o new_frame regions in
      Encoded
        (leb (frame_buffer_used f + length (all_bytes ps)) o.buffer_size)
        f
        ps
        (stress_generate_frame o true new_frame seed f).0
  pub received :
      let ps = stress_packets o new_frame regions in
      receive (length ps) (all_bytes ps) (scr, flags)
      ≡ some (paint_all o.bitrev regions scr, last_flags flags ps)

-- The regions of a mode, whatever the encoder and the buffer are.
record Drawn (m : StressMode) (o : StressOptions) (seed : ℕ) : Type 0 where
  regions : List Region
  sends :
      (enc : EncoderState) (f : FrameBuffer)
      → Sends
          (stress_emit_packet o.buffer_size)
          f
          (stress_regions m o seed (enc, f)).0
          (packets_of enc regions)
          (after_all enc regions)
  valid : All IsRegion regions
  writes : Writes m regions o.max_bytes
