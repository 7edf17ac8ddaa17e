-- ===== src/Examples/Encoder.antt =====
-- The encoder's theorems at the inputs.
use p4_hmd.Base.{◌*◌, ◌/◌, ◌≡◌, arith, true, false, List, [], ◌∷◌, All, feed}
use p4_hmd.Update.Word.{Buffer}
use p4_hmd.Update.Diffs.{DiffCb, find_diffs}
use p4_hmd.Update.Diffs.Regions.{Region, Covers, call, find_diffs-Covers}
use p4_hmd.Update.Rle.{Run, RleCb, find_rle}
use p4_hmd.Update.Rle.Runs.{Partition, find_rle-Partition}
use p4_hmd.Update.Packet.{
  PacketHeader, pkt_init_data, pkt_addr, pkt_len, pkt_is_data, pkt_is_flags_only, pkt_is_rle,
  pkt_is_new_frame, pkt_is_bitrev, hdr_size_data,
}
use p4_hmd.Update.Packet.Wire.{pkt_init_data_roundtrip}
use p4_hmd.Update.Display.{draw_all}
use p4_hmd.Update.Encoder.{EncoderState, EmitFn, encode_diff}
use p4_hmd.Update.Encoder.Sound.{IsSound}
use p4_hmd.Update.Encoder.Correct.{Shows, SameOutside, scan_from, scan_to, encode_diff-draw}
use p4_hmd.Update.Encoder.Same.{encode_diff_same}
use p4_hmd.Examples.Inputs.{blank_screen, blank_screen-IsBytes, bar, bar-IsBytes}

abbrev keep_region : DiffCb (List Region)
keep_region start end ds = (true, (start, end) ∷ ds)

find_diffs-Covers_example :
    (ds : List Region) × (find_diffs blank_screen bar 16 6 keep_region []
      ≡ feed (call keep_region) ds [])
    × Covers blank_screen bar 6 (16 / 8 * 8) 0 0 ds
find_diffs-Covers_example =
    find_diffs-Covers blank_screen bar 16 6 keep_region [] blank_screen-IsBytes bar-IsBytes
      (omega arith)

abbrev keep_run : RleCb (List Run)
keep_run r rs = (true, r ∷ rs)

find_rle-Partition_example :
    (rs : List Run) × (find_rle bar 16 8 keep_run [] ≡ feed keep_run rs [])
    × Partition bar 8 0 16 rs
find_rle-Partition_example = find_rle-Partition bar 16 8 keep_run [] bar-IsBytes

abbrev keep_packet : EmitFn (List PacketHeader)
keep_packet p ps = (true, p ∷ ps)

abbrev encoder : EncoderState
encoder = record { addr = 0; flags = 0; new_frame = true; bitrev = true }

encode_diff-draw_example :
    (ps : List PacketHeader) × (let r =
        encode_diff keep_packet (encoder, []) blank_screen bar 0 16 in
      (r.0, r.1.1) ≡ feed keep_packet ps [])
    × All IsSound ps
    × ((scr : Buffer)
        → Shows true scr blank_screen (scan_from 0) (scan_to 16)
        → Shows true (draw_all ps scr) bar (scan_from 0) (scan_to 16)
          × SameOutside scr (draw_all ps scr) (scan_from 0) (scan_to 16))
encode_diff-draw_example =
    encode_diff-draw keep_packet encoder [] blank_screen bar 0 16 blank_screen-IsBytes bar-IsBytes
      (omega arith) (omega arith)

encode_diff_same_example :
    encode_diff keep_packet (encoder, []) bar bar 0 16 ≡ (true, (encoder, []))
encode_diff_same_example = encode_diff_same keep_packet (encoder, []) bar 0 16 bar-IsBytes

pkt_init_data_roundtrip_example :
    let p = pkt_init_data 128 true false true 25199 1 in
    (pkt_addr p ≡ 25199)
    × (pkt_len p ≡ 1)
    × (p.flags ≡ 128)
    × (p.size ≡ hdr_size_data)
    × (pkt_is_data p ≡ true)
    × (pkt_is_flags_only p ≡ false)
    × (pkt_is_rle p ≡ false)
    × (pkt_is_new_frame p ≡ true)
    × (pkt_is_bitrev p ≡ true)
pkt_init_data_roundtrip_example =
    pkt_init_data_roundtrip 128 true false true 25199 1 (omega arith) (omega arith)
