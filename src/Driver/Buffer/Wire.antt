-- ===== src/Driver/Buffer/Wire.antt =====
-- The bytes in the send buffer as the display reads them, and the two senders as sources of packets.
use p4_hmd.Base.{ℕ, suc, zero, ◌≡◌, ◌≤◌, refl, ◌∙◌, arith, Bool, true, false}
use p4_hmd.Base.{List, [], ◌∷◌, length, length-append, feed, All, some}
use p4_hmd.Update.Word.{Buffer, IsBytes}
use p4_hmd.Update.Packet.{PacketHeader, pkt_init_data, pkt_addr, pkt_len, pkt_is_rle, pkt_is_bitrev}
use p4_hmd.Update.Display.{between, draw, draw_all}
use p4_hmd.Update.Receiver.{receive, receive_sound}
use p4_hmd.Update.Encoder.{fb_size, encoder_init, packet}
use p4_hmd.Update.Encoder.Sound.{IsSound, packet-IsSound}
use p4_hmd.Update.Encoder.Correct.{Shows, encode_diff-draw}
use p4_hmd.Driver.State.{Device, flags_byte}
use p4_hmd.Driver.Buffer.{packet_bytes, buf_emit, p4_send_diff, clear_packet}
use p4_hmd.Driver.Buffer.Laws.{all_bytes, length-packet_bytes}

abbrev pub last_flags : ℕ → List PacketHeader → ℕ
last_flags f [] = f
last_flags f (p ∷ ps) = last_flags p.flags ps

-- The bytes of packets of the encoder's kind, one after the other, are read by the display as these
-- packets, which it draws in order, and the flags last received are those of the last packet.
pub receive-all_bytes :
    (ps : List PacketHeader) (n : ℕ) (scr : Buffer) (flags : ℕ)
    → All IsSound ps
    → length ps ≤ n
    → receive n (all_bytes ps) (scr, flags) ≡ some (draw_all ps scr, last_flags flags ps)
unfolding packet_bytes
receive-all_bytes [] zero scr flags h le = unfold receive in refl
receive-all_bytes [] (suc n) scr flags h le = unfold receive in refl
receive-all_bytes (p ∷ ps) zero scr flags h le = absurd (omega arith)
receive-all_bytes (p ∷ ps) (suc n) scr flags h le =
    receive_sound n p (all_bytes ps) scr flags h.0
    ∙ receive-all_bytes ps n (draw p scr) p.flags h.1 (omega arith)

pub length-all_bytes : (ps : List PacketHeader) → All IsSound ps → length ps ≤ length (all_bytes ps)
length-all_bytes [] h = omega arith
length-all_bytes (p ∷ ps) h = omega (
  arith,
  length-append (packet_bytes p) (all_bytes ps),
  length-packet_bytes p,
  h.0.header,
  length-all_bytes ps h.1,
)

pub clear_packet-IsSound : (b : Bool) → IsSound (clear_packet b)
unfolding clear_packet packet encoder_init
clear_packet-IsSound b = packet-IsSound (encoder_init 0 true b) true (λ _. 0) fb_size (omega arith)

pub p4_send_diff-feed :
    (s : Device) (old new : Buffer) (new_frame : Bool)
    → IsBytes old
    → IsBytes new
    → (ps : List PacketHeader) × (p4_send_diff s old new 0 fb_size new_frame ≡ feed buf_emit ps s)
      × All IsSound ps
      × ((scr : Buffer)
          → Shows s.is_native scr old 0 fb_size
          → Shows s.is_native (draw_all ps scr) new 0 fb_size)
unfolding p4_send_diff encoder_init
p4_send_diff-feed s old new new_frame ho hn =
    let enc = encoder_init (flags_byte s.display_flags) new_frame s.is_native in
    let (ps, sent, sound, drawn) =
      encode_diff-draw buf_emit enc s old new 0 fb_size ho hn (omega arith) (omega arith) in
    (ps, sent, sound, λ scr h. (drawn scr h).0)

-- A clear packet makes the display show a buffer of zeros.
pub clear_packet-draw :
    (b : Bool) (scr : Buffer) → Shows b (draw (clear_packet b) scr) (λ _. 0) 0 fb_size
unfolding draw clear_packet pkt_init_data pkt_addr pkt_len pkt_is_rle pkt_is_bitrev
clear_packet-draw false scr i p q = let t : between 0 fb_size i ≡ true = ground arith in rw t refl
clear_packet-draw true scr i p q = let t : between 0 fb_size i ≡ true = ground arith in rw t refl
