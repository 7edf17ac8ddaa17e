-- ===== src/Update/Encoder/Regions.antt =====
-- The packets of each region that `find_diffs` reports, and the state that the encoder goes on in.
use p4_hmd.Base.{ℕ, ◌+◌, ◌-◌, ◌≤◌, ◌<◌, ◌≡◌, refl, arith, u16}
use p4_hmd.Base.{false, List, [], ◌∷◌, ◌++◌, feed, ltb, ◌||◌}
use p4_hmd.Update.Word.{Buffer, at}
use p4_hmd.Update.Diffs.Regions.{Region, Covers, call}
use p4_hmd.Update.Rle.{Run}
use p4_hmd.Update.Rle.Runs.{rle_runs, find_rle-feed}
use p4_hmd.Update.Packet.{PacketHeader}
use p4_hmd.Update.Encoder.{
  EncoderState, EmitFn, rle_emit_cb, encode_region, diff_emit_cb, fb_size, rle_min_run,
}
use p4_hmd.Update.Encoder.Sends.{
  Sends, Sends-go_on, Sends-nothing, run_packets, after_runs, runs-Sends, after_packet,
}

pub after_runs-bitrev :
    (enc : EncoderState) (rs : List Run) → (after_runs enc rs).bitrev ≡ enc.bitrev
unfolding after_runs
after_runs-bitrev enc [] = refl
after_runs-bitrev enc (r ∷ rs) = after_runs-bitrev (after_packet enc (u16 r.len)) rs

module _ (base : ℕ) (new : Buffer) where
  -- The runs of a region, and the state that the encoder starts it in.
  abbrev pub region_runs : Region → List Run
  region_runs (start, end) =
      rle_runs (at new (base + start)) (base + end - (base + start)) rle_min_run

  abbrev pub enter : EncoderState → Region → EncoderState
  enter enc (start, end) = record enc { addr = u16 (base + start) }

  unfoldable pub diff_packets : EncoderState → List Region → List PacketHeader
  diff_packets enc [] = []
  diff_packets enc (d ∷ ds) =
      run_packets (enter enc d) (region_runs d)
      ++ diff_packets (after_runs (enter enc d) (region_runs d)) ds

  unfoldable pub after_diffs : EncoderState → List Region → EncoderState
  after_diffs enc [] = enc
  after_diffs enc (d ∷ ds) = after_diffs (after_runs (enter enc d) (region_runs d)) ds

  module _ {ℓ} {S : Type ℓ} (emit : EmitFn S) where
    diff_emit_cb-Sends :
        (s : S) (enc : EncoderState) (start end : ℕ)
        → start < end
        → base + end ≤ fb_size
        → Sends emit s
            (diff_emit_cb emit base new start end (enc, s))
            (run_packets (enter enc (start, end)) (region_runs (start, end)))
            (after_runs (enter enc (start, end)) (region_runs (start, end)))
    unfolding diff_emit_cb encode_region
    diff_emit_cb-Sends s enc start end h fits =
        let abs_start = base + start in
        let len = base + end - abs_start in
        let guard : (ltb 0xffff abs_start
              || ltb fb_size (base + end)
              || ltb fb_size (abs_start + len))
            ≡ false =
          ground arith in
        let guard' : ltb fb_size (u16 abs_start + len) ≡ false = ground arith in
        rw (guard, guard')
          (rw
            (find_rle-feed (at new abs_start) len rle_min_run (rle_emit_cb emit)
              (enter enc (start, end), s))
            (runs-Sends emit s (enter enc (start, end)) (region_runs (start, end))))

    pub diffs-Sends :
        (old : Buffer) (gap len lo a : ℕ) (s : S) (enc : EncoderState) (ds : List Region)
        → Covers old (at new base) gap len lo a ds
        → base + len ≤ fb_size
        → Sends emit s
            (feed (call (diff_emit_cb emit base new)) ds (enc, s))
            (diff_packets enc ds)
            (after_diffs enc ds)
    unfolding diff_packets after_diffs
    diffs-Sends old gap len lo a s enc [] c fits = Sends-nothing emit s enc
    diffs-Sends old gap len lo a s enc ((start, end) ∷ ds) (c0, c1, c2, c3, c4, c5, c6, c7, c)
          fits =
        let enc' = after_runs (enter enc (start, end)) (region_runs (start, end)) in
        Sends-go_on emit s (diff_emit_cb emit base new start end (enc, s))
          (feed (call (diff_emit_cb emit base new)) ds)
          (run_packets (enter enc (start, end)) (region_runs (start, end))) (diff_packets enc' ds)
          enc' (after_diffs enc' ds) (diff_emit_cb-Sends s enc start end c2 (omega arith))
          (λ t. diffs-Sends old gap len (end + gap) end t enc' ds c fits)
