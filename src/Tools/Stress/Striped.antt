-- ===== src/Tools/Stress/Striped.antt =====
-- The alternating lines of a stress frame.
use p4_hmd.Base.{ℕ, zero, suc, ◌+◌, ◌-◌, ◌*◌, ◌/◌, ◌≡◌, ◌<◌, refl, arith, u16, min}
use p4_hmd.Base.{ltb, Bool-cases, inl, inr, List, [], ◌∷◌, All}
use p4_hmd.Update.Word.{IsBytes}
use p4_hmd.Update.Encoder.{EncoderState}
use p4_hmd.Update.Encoder.Sends.{Sends, Sends-nothing}
use p4_hmd.Update.Encoder.Region.{after_region}
use p4_hmd.Tools.Calibrate.{FrameBuffer}
use p4_hmd.Tools.Stress.{line_bytes, num_lines, line_fill, stress_lines, stress_emit_packet}
use p4_hmd.Tools.Stress.Regions.{Region, IsRegion, total, packets_of, after_all, region-Sends}

abbrev line_region : ℕ → Region
line_region line = record {
  addr = line * line_bytes;
  len = line_bytes;
  bytes = λ _. line_fill line;
}

-- Whole lines from `line` on, one after another.
abbrev pub Alternating : ℕ → List Region → Type 0
Alternating line [] = Unit
Alternating line (w ∷ ws) = (w ≡ line_region line) × Alternating (line + 1) ws

line_fill-IsBytes : (line : ℕ) → IsBytes (λ _. line_fill line)
line_fill-IsBytes line i = ground arith

line_region-IsRegion : (line : ℕ) → line < num_lines → IsRegion (line_region line)
line_region-IsRegion line lt = record {
  inside = omega arith;
  some_bytes = omega arith;
  short = omega arith;
  is_bytes = line_fill-IsBytes line;
}

-- All of the lines that are left, or as few as have `n` bytes.
abbrev pub striped_bytes : ℕ → ℕ → ℕ
striped_bytes left n = min ((n + 34) / 35) left * 35

-- The lines that the loop writes.
pub record Striped (size left line n : ℕ) : Type 0 where
  pub regions : List Region
  pub sends :
      (enc : EncoderState) (f : FrameBuffer)
      → Sends
          (stress_emit_packet size)
          f
          (stress_lines size left line n (enc, f))
          (packets_of enc regions)
          (after_all enc regions)
  pub valid : All IsRegion regions
  pub alternating : Alternating line regions
  pub count : total regions ≡ striped_bytes left n

pub stress_lines-Striped :
    (size left line n : ℕ) → line + left ≡ num_lines → Striped size left line n
unfolding stress_lines
stress_lines-Striped size zero line n e = record {
  regions = [];
  sends = λ enc f. Sends-nothing (stress_emit_packet size) f enc;
  valid = tt;
  alternating = tt;
  count = omega arith;
}
stress_lines-Striped size (suc left) line n e =
    let h = stress_lines-Striped size left (line + 1) (n - line_bytes) (omega arith) in
    let w = line_region line in
    let lt : line < num_lines = omega arith in
    let small : u16 (line * line_bytes) ≡ line * line_bytes = omega arith in
    elim (Bool-cases (ltb 0 n)) [
      | inl go ↦
          let more : 0 < n = ground arith in
          record {
            regions = w ∷ h.regions;
            sends = λ enc f.
                rw (go, small)
                  (region-Sends (stress_emit_packet size) f enc w h.regions
                    (stress_lines size left (line + 1) (n - line_bytes))
                    (line_region-IsRegion line lt).inside
                    (λ t. h.sends (after_region enc w.addr w.bytes w.len) t));
            valid = (line_region-IsRegion line lt, h.valid);
            alternating = (refl, h.alternating);
            count = omega (arith, h.count);
          }
      | inr stop ↦ record {
        regions = [];
        sends = λ enc f. rw stop (Sends-nothing (stress_emit_packet size) f enc);
        valid = tt;
        alternating = tt;
        count = ground arith;
      }
    ]
