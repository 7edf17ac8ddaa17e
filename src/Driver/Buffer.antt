-- ===== src/Driver/Buffer.antt =====
-- The send buffer of kmod/sender.c, and the two senders that fill it.
pub mod Laws
pub mod Wire
use p4_hmd.Base.{ℕ, ◌+◌, ◌*◌, ◌<◌, Bool, true, false, not, List, [], ◌∷◌, ◌++◌, length, leb, ltb}
use p4_hmd.Base.{◌||◌, ◌&&◌, ◌==◌, if◌then◌else◌}
use p4_hmd.Update.Word.{Buffer}
use p4_hmd.Update.Packet.{
  PacketHeader, pkt_init_data, pkt_is_flags_only, pkt_addr, pkt_len, read_bytes, wire_byte,
}
use p4_hmd.Update.Encoder.{encoder_init, encode_diff, fb_size}
use p4_hmd.Driver.State.{Device, buf_len, flags_byte}

abbrev pub spi_buf_size : ℕ
spi_buf_size = 32768

unfoldable pub buf_is_empty : Device → Bool
buf_is_empty s = leb (buf_len s) s.buf_pos

unfoldable pub buf_reset : Device → Device
buf_reset s = record s { buf = []; buf_pos = 0 }

-- The bytes that `buf_emit` copies for a packet: its wire part, then its payload.
unfoldable pub packet_bytes : PacketHeader → List ℕ
packet_bytes pkt = read_bytes pkt.size (wire_byte pkt) ++ read_bytes pkt.data_len pkt.payload

-- `addr` and `len` are 16 bits wide, so `end` does not wrap as a `u32`.
unfoldable pub buf_emit : PacketHeader → Device → Bool × Device
buf_emit pkt s =
    let needed = pkt.size + pkt.data_len in
    let end = pkt_addr pkt + pkt_len pkt in
    if not (pkt_is_flags_only pkt) && ltb fb_size end
    then (false, s)
    else (if not s.enabled || not s.device_online
        then (false, s)
        else (if ltb spi_buf_size (buf_len s + needed)
            then (false, s)
            else (true, record s { buf = s.buf ++ packet_bytes pkt })))

unfoldable pub p4_send_diff : Device → Buffer → Buffer → ℕ → ℕ → Bool → Bool × Device
p4_send_diff s old_buf new_buf scan_start scan_end new_frame =
    let enc = encoder_init (flags_byte s.display_flags) new_frame s.is_native in
    let (ok, (enc', s')) = encode_diff buf_emit (enc, s) old_buf new_buf scan_start scan_end in
    (ok, s')

-- The packet of `p4_send_clear`: a run of zeros over the whole framebuffer, with flags 0.
unfoldable pub clear_packet : Bool → PacketHeader
clear_packet is_native =
    let pkt = pkt_init_data 0 true true is_native 0 fb_size in
    record pkt { payload = λ _. 0; data_len = 1 }

unfoldable pub p4_send_clear : Device → Bool × Device
p4_send_clear s = buf_emit (clear_packet s.is_native) s
