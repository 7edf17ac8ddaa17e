-- ===== src/Tools/Calibrate.antt =====
-- The frames that kmod/p4_calibrate.c encodes into a buffer of its own before it sends them.
pub mod Frames
use p4_hmd.Base.{ℕ, suc, ◌+◌, ◌*◌, Bool, true, false, List, [], ◌++◌, length, ltb, if◌then◌else◌}
use p4_hmd.Base.{Option, none, some}
use p4_hmd.Update.Word.{Buffer}
use p4_hmd.Update.Packet.{PacketHeader, pkt_init_data}
use p4_hmd.Update.Encoder.{encoder_init, encode_diff, encode_region, fb_size}
use p4_hmd.Driver.Buffer.{packet_bytes}

-- The first `frame_buffer_used` bytes of `frame_buffer`, and the count of packets.
pub record FrameBuffer : Type 0 where
  pub bytes : List ℕ
  pub packet_count : ℕ

abbrev pub frame_buffer_used : FrameBuffer → ℕ
frame_buffer_used f = length f.bytes

unfoldable pub emit_packet_to_buffer : ℕ → PacketHeader → FrameBuffer → Bool × FrameBuffer
emit_packet_to_buffer frame_buffer_size pkt f =
    let needed = frame_buffer_used f + pkt.size + pkt.data_len in
    if ltb frame_buffer_size needed
    then (false, f)
    else (true, record { bytes = f.bytes ++ packet_bytes pkt; packet_count = suc f.packet_count })

-- The count of packets, or none for -1, from what the encoder returns.
abbrev pub counted : Bool → FrameBuffer → Option ℕ × FrameBuffer
counted true f = (some f.packet_count, f)
counted false f = (none, f)

-- `bitrev` is the tool's option `pattern_bitrev`.
unfoldable pub encode_diff_to_buffer :
    ℕ → Bool → Buffer → Buffer → Bool → FrameBuffer → Option ℕ × FrameBuffer
encode_diff_to_buffer size bitrev old_fb new_fb new_frame f =
    let enc = encoder_init 0 new_frame bitrev in
    let start = record f { packet_count = 0 } in
    let (ok, (enc', f')) =
      encode_diff (emit_packet_to_buffer size) (enc, start) old_fb new_fb 0 fb_size in
    counted ok f'

unfoldable pub encode_full_to_buffer :
    ℕ → Bool → Buffer → Bool → FrameBuffer → Option ℕ × FrameBuffer
encode_full_to_buffer size bitrev fb new_frame f =
    let enc = encoder_init 0 new_frame bitrev in
    let start = record f { packet_count = 0 } in
    let (ok, (enc', f')) = encode_region (emit_packet_to_buffer size) (enc, start) 0 fb fb_size in
    counted ok f'

-- `allocated` says whether `malloc` gives memory. The count of packets is the caller's, and goes on.
unfoldable pub fill_region_buffered :
    ℕ → Bool → Bool → ℕ → ℕ → ℕ → Bool → FrameBuffer → Bool × FrameBuffer
fill_region_buffered size bitrev allocated addr len fill_byte new_frame f =
    let enc = encoder_init 0 new_frame bitrev in
    let (ok, (enc', f')) =
      encode_region (emit_packet_to_buffer size) (enc, f) addr (λ _. fill_byte) len in
    if allocated then (ok, f') else (false, f)

-- The packet of `build_clear_packet`, and the bytes that it writes.
unfoldable pub clear_header : PacketHeader
clear_header = record (pkt_init_data 0 true true false 0 fb_size) { payload = λ _. 0; data_len = 1 }

unfoldable pub build_clear_packet : List ℕ
build_clear_packet = packet_bytes clear_header
