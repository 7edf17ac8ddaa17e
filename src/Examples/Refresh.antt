-- ===== src/Examples/Refresh.antt =====
-- A full refresh to the blank screen sends the clear packet alone, in any orientation.
use p4_hmd.Base.{◌≡◌, ◌∙◌, refl, ap, Bool, true, false}
use p4_hmd.Update.Word.{Buffer, IsBytes}
use p4_hmd.Update.Encoder.{encoder_init, fb_size}
use p4_hmd.Update.Encoder.Same.{encode_diff_same}
use p4_hmd.Update.Packet.{pkt_init_data, pkt_addr, pkt_len, pkt_is_flags_only, read_bytes}
use p4_hmd.Driver.State.{Device, flags_byte, DisplayFlags, Rotation}
use p4_hmd.Driver.Frame.{encode_frame, encode_buffers, encode_with, finish_frame, start_frame}
use p4_hmd.Driver.Buffer.{
  p4_send_clear, p4_send_diff, buf_emit, buf_reset, buf_is_empty, clear_packet, packet_bytes,
}
use p4_hmd.Driver.Buffer.Laws.{with_bytes}
use p4_hmd.Examples.Inputs.{refreshed, blank_screen, blank_screen-IsBytes}

abbrev pub refreshed_with : DisplayFlags → Rotation → Device
refreshed_with flags rotation = record refreshed { display_flags = flags; rotation = rotation }

pub same_sent :
    (s : Device) (buf : Buffer) (new_frame : Bool)
    → IsBytes buf
    → p4_send_diff s buf buf 0 fb_size new_frame ≡ (true, s)
unfolding p4_send_diff
same_sent s buf new_frame h =
    ap (λ r. (r.0, r.1.1))
      (encode_diff_same buf_emit
        (encoder_init (flags_byte s.display_flags) new_frame s.is_native, s) buf 0 fb_size h)

module _ (flags : DisplayFlags) (rotation : Rotation) where
  cleared : Device
  cleared =
      with_bytes (start_frame (refreshed_with flags rotation)) (packet_bytes (clear_packet true))

  clear_sent : p4_send_clear (start_frame (refreshed_with flags rotation)) ≡ (true, cleared)
  unfolding p4_send_clear buf_emit cleared start_frame buf_reset clear_packet pkt_init_data pkt_addr
      pkt_len pkt_is_flags_only
  clear_sent = refl

  refresh_sent : encode_with true (start_frame (refreshed_with flags rotation)) ≡ (true, cleared)
  unfolding encode_with start_frame buf_reset cleared
  refresh_sent = rw (clear_sent, same_sent cleared blank_screen false blank_screen-IsBytes) refl

  not_empty : buf_is_empty cleared ≡ false
  unfolding buf_is_empty start_frame buf_reset cleared packet_bytes clear_packet pkt_init_data
      read_bytes
  not_empty = refl

  pub found : (encode_frame (refreshed_with flags rotation)).0 ≡ true
  unfolding encode_frame encode_buffers start_frame buf_reset finish_frame
  found = ap (λ r. (finish_frame r).0) refresh_sent ∙ rw not_empty refl
