-- ===== src/Update/Encoder/Region.antt =====
-- One call of `encode_region`, by the packets that it makes.
use p4_hmd.Base.{ℕ, ◌+◌, ◌-◌, ◌≤◌, ◌≡◌, ◌∙◌, arith}
use p4_hmd.Base.{false, List, All, ltb, if◌then◌else◌}
use p4_hmd.Update.Word.{Buffer, IsBytes}
use p4_hmd.Update.Rle.Runs.{rle_runs, rle_runs-Partition, find_rle-feed}
use p4_hmd.Update.Packet.{PacketHeader}
use p4_hmd.Update.Display.{between, shown, draw_all}
use p4_hmd.Update.Encoder.{EncoderState, EmitFn, rle_emit_cb, encode_region, fb_size, rle_min_run}
use p4_hmd.Update.Encoder.Sends.{Sends, run_packets, after_runs, runs-Sends}
use p4_hmd.Update.Encoder.Draws.{run_packets-draw}
use p4_hmd.Update.Encoder.Sound.{IsSound, run_packets-IsSound}
use p4_hmd.Update.Encoder.Regions.{after_runs-bitrev}

module _ (enc : EncoderState) (addr : ℕ) (buf : Buffer) (len : ℕ) where
  abbrev start_at : EncoderState
  start_at = record enc { addr = addr }

  abbrev pub region_packets : List PacketHeader
  region_packets = run_packets start_at (rle_runs buf len rle_min_run)

  abbrev pub after_region : EncoderState
  after_region = after_runs start_at (rle_runs buf len rle_min_run)

  pub after_region-bitrev : after_region.bitrev ≡ enc.bitrev
  after_region-bitrev = after_runs-bitrev start_at (rle_runs buf len rle_min_run)

  pub encode_region-Sends {ℓ} :
      {S : Type ℓ} (emit : EmitFn S) (s : S)
      → addr + len ≤ fb_size
      → Sends emit s (encode_region emit (enc, s) addr buf len) region_packets after_region
  unfolding encode_region
  encode_region-Sends emit s fits =
      let guard : ltb fb_size (addr + len) ≡ false = ground arith in
      rw guard (
        rw (find_rle-feed buf len rle_min_run (rle_emit_cb emit) (start_at, s))
          (runs-Sends emit s start_at (rle_runs buf len rle_min_run)))

  pub region_packets-IsSound : IsBytes buf → addr + len ≤ fb_size → All IsSound region_packets
  region_packets-IsSound h fits =
      let p = rle_runs-Partition buf len rle_min_run h in
      run_packets-IsSound buf addr 0 len start_at _ p (omega arith) fits

  pub region_packets-draw :
      (scr : Buffer) (i : ℕ)
      → IsBytes buf
      → addr + len ≤ fb_size
      → draw_all region_packets scr i
        ≡ (if between addr (addr + len) i then shown enc.bitrev (buf (i - addr)) else scr i)
  region_packets-draw scr i h fits =
      let p = rle_runs-Partition buf len rle_min_run h in
      let z : addr + 0 ≡ addr = omega arith in
      run_packets-draw buf addr 0 len start_at _ scr i p (omega arith) fits ∙ rw z
