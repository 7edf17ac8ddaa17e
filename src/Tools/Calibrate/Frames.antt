-- ===== src/Tools/Calibrate/Frames.antt =====
-- A frame in the calibration tool's buffer is what the display needs to show it.
use native.Mathlib.Decide.{dec_le}
use p4_hmd.Base.{ℕ, suc, ◌+◌, ◌-◌, ◌≤◌, ◌<◌, ◌≡◌, refl, sym, ◌∙◌, ap, arith}
use p4_hmd.Base.{Bool, true, false, Bool-cases, All, ltb, leb, inl, inr}
use p4_hmd.Base.{List, [], ◌∷◌, ◌++◌, length, length-append, feed, Option, none, some}
use mathlib.Core.List.{append_assoc, append-nil}
use p4_hmd.Update.Word.{Buffer, IsBytes}
use p4_hmd.Update.Packet.{PacketHeader}
use p4_hmd.Update.Display.{between, draw_all}
use p4_hmd.Update.Receiver.{receive}
use p4_hmd.Update.Encoder.{fb_size, encoder_init}
use p4_hmd.Update.Encoder.Region.{
  region_packets, encode_region-Sends, region_packets-IsSound, region_packets-draw,
}
use p4_hmd.Update.Encoder.Sound.{IsSound}
use p4_hmd.Update.Encoder.Correct.{Shows, encode_diff-draw}
use p4_hmd.Driver.Buffer.{packet_bytes}
use p4_hmd.Driver.Buffer.Laws.{all_bytes, length-packet_bytes}
use p4_hmd.Driver.Buffer.Wire.{last_flags, receive-all_bytes}
use p4_hmd.Tools.Calibrate.{
  FrameBuffer, frame_buffer_used, emit_packet_to_buffer, counted, encode_diff_to_buffer,
  encode_full_to_buffer,
}

abbrev pub with_packets : FrameBuffer → List PacketHeader → FrameBuffer
with_packets f ps = record {
  bytes = f.bytes ++ all_bytes ps;
  packet_count = f.packet_count + length ps;
}

abbrev with_packet : PacketHeader → FrameBuffer → FrameBuffer
with_packet p f = record { bytes = f.bytes ++ packet_bytes p; packet_count = suc f.packet_count }

-- The bytes of a packet, and of those after it, in the count.
room_after :
    (p : PacketHeader) (ps : List PacketHeader) (f : FrameBuffer)
    → (frame_buffer_used (with_packet p f) ≡ frame_buffer_used f + p.size + p.data_len)
      × (length (all_bytes (p ∷ ps)) ≡ p.size + p.data_len + length (all_bytes ps))
room_after p ps f =
    let own = length-packet_bytes p in
    (
      omega (arith, length-append f.bytes (packet_bytes p)),
      omega (arith, length-append (packet_bytes p) (all_bytes ps)),
    )

feed_fits :
    (size : ℕ) (ps : List PacketHeader) (f : FrameBuffer)
    → frame_buffer_used f + length (all_bytes ps) ≤ size
    → feed (emit_packet_to_buffer size) ps f ≡ (true, with_packets f ps)
unfolding emit_packet_to_buffer
feed_fits size [] f h =
    let same : f.packet_count ≡ f.packet_count + 0 = omega arith in
    λ i. (true, record { bytes = sym (append-nil f.bytes) i; packet_count = same i })
feed_fits size (p ∷ ps) f h =
    let f' = with_packet p f in
    let (room, rest) = room_after p ps f in
    let fits : ltb size (frame_buffer_used f + p.size + p.data_len) ≡ false = ground arith in
    let count : suc f.packet_count + length ps ≡ f.packet_count + suc (length ps) = omega arith in
    let bytes = append_assoc f.bytes (packet_bytes p) (all_bytes ps) in
    rw fits (
      feed_fits size ps f' (omega arith)
      ∙ (λ i. (true, record { bytes = bytes i; packet_count = count i })))

feed_overflows :
    (size : ℕ) (ps : List PacketHeader) (f : FrameBuffer)
    → frame_buffer_used f ≤ size
    → size < frame_buffer_used f + length (all_bytes ps)
    → (feed (emit_packet_to_buffer size) ps f).0 ≡ false
unfolding emit_packet_to_buffer
feed_overflows size [] f h over = absurd (omega arith)
feed_overflows size (p ∷ ps) f h over =
    let (room, rest) = room_after p ps f in
    elim (dec_le (frame_buffer_used f + p.size + p.data_len) size) [
      | yes le ↦
          let fits : ltb size (frame_buffer_used f + p.size + p.data_len) ≡ false = ground arith in
          rw fits (feed_overflows size ps (with_packet p f) (omega arith) (omega arith))
      | no gt ↦
          let full : ltb size (frame_buffer_used f + p.size + p.data_len) ≡ true = ground arith in
          rw full refl
    ]

-- What `encode_diff_to_buffer` returns and leaves, by whether the packets fit.
abbrev pub Encoded : Bool → FrameBuffer → List PacketHeader → Option ℕ × FrameBuffer → Type 0
Encoded true f ps r = r ≡ (some (length ps), with_packets (record f { packet_count = 0 }) ps)
Encoded false f ps r = r.0 ≡ none

pub Encoded-counted :
    (size : ℕ) (ps : List PacketHeader) (f : FrameBuffer) (r : Bool × FrameBuffer)
    → frame_buffer_used f ≤ size
    → r ≡ feed (emit_packet_to_buffer size) ps (record f { packet_count = 0 })
    → Encoded (leb (frame_buffer_used f + length (all_bytes ps)) size) f ps (counted r.0 r.1)
Encoded-counted size ps f r h e =
    let start = record f { packet_count = 0 } in
    elim (Bool-cases (leb (frame_buffer_used f + length (all_bytes ps)) size)) [
      | inl t ↦
          let none_before : 0 + length ps ≡ length ps = omega arith in
          rw t (
            ap (λ (q : Bool × FrameBuffer). counted q.0 q.1)
              (e ∙ feed_fits size ps start (ground arith))
            ∙ ap (λ (n : ℕ). (some n, with_packets start ps)) none_before)
      | inr u ↦
          let refused : r.0 ≡ false =
            ap (λ (q : Bool × FrameBuffer). q.0) e
            ∙ feed_overflows size ps start h (ground arith) in
          rw u (ap (λ (b : Bool). (counted b r.1).0) refused)
    ]

-- A frame in the buffer: its packets, how the call ends, and that they make any display that satisfies
-- `Before` show the frame.
pub record Frame (size : ℕ) (bitrev : Bool) (fb : Buffer) (f : FrameBuffer)
    (r : Option ℕ × FrameBuffer) (Before : Buffer → Type 0) : Type 0 where
  pub packets : List PacketHeader
  pub encoded : Encoded (leb (frame_buffer_used f + length (all_bytes packets)) size) f packets r
  pub sound : All IsSound packets
  pub shows : (scr : Buffer) → Before scr → Shows bitrev (draw_all packets scr) fb 0 fb_size

pub encode_diff_to_buffer-Frame :
    (size : ℕ) (bitrev new_frame : Bool) (old new : Buffer) (f : FrameBuffer)
    → IsBytes old
    → IsBytes new
    → frame_buffer_used f ≤ size
    → Frame size bitrev new f
        (encode_diff_to_buffer size bitrev old new new_frame f)
        (λ scr. Shows bitrev scr old 0 fb_size)
unfolding encode_diff_to_buffer
encode_diff_to_buffer-Frame size bitrev new_frame old new f ho hn room =
    let enc = encoder_init 0 new_frame bitrev in
    let start = record f { packet_count = 0 } in
    let (ps, sent, sound, draws) =
      encode_diff-draw (emit_packet_to_buffer size) enc start old new 0 fb_size ho hn (omega arith)
        (omega arith) in
    record {
      packets = ps;
      encoded = Encoded-counted size ps f _ room sent;
      sound = sound;
      shows = λ scr shows. unfold encoder_init in (draws scr shows).0;
    }

pub encode_full_to_buffer-Frame :
    (size : ℕ) (bitrev new_frame : Bool) (fb : Buffer) (f : FrameBuffer)
    → IsBytes fb
    → frame_buffer_used f ≤ size
    → Frame size bitrev fb f (encode_full_to_buffer size bitrev fb new_frame f) (λ _. Unit)
unfolding encode_full_to_buffer encoder_init
encode_full_to_buffer-Frame size bitrev new_frame fb f h room =
    let enc = encoder_init 0 new_frame bitrev in
    let start = record f { packet_count = 0 } in
    let sends =
      encode_region-Sends enc 0 fb fb_size (emit_packet_to_buffer size) start (omega arith) in
    record {
      packets = region_packets enc 0 fb fb_size;
      encoded = Encoded-counted size _ f _ room sends.result;
      sound = region_packets-IsSound enc 0 fb fb_size h (omega arith);
      shows = λ scr _ i p q.
          let t : between 0 fb_size i ≡ true = ground arith in
          region_packets-draw enc 0 fb fb_size scr i h (omega arith)
          ∙ (let z : i - 0 ≡ i = omega arith in rw (t, z) refl);
    }

-- For two buffers of bytes, and a display that shows the old one: `encode_diff_to_buffer` has a list
-- of packets for the new one. If their bytes fit behind those in the frame buffer, it appends exactly
-- these bytes and returns the number of the packets; if not, it returns -1. The display, reading the
-- bytes, receives that many packets, and then shows the new buffer everywhere.
pub encode_diff_to_buffer-receive :
    (size : ℕ) (bitrev new_frame : Bool) (old new scr : Buffer) (flags : ℕ) (f : FrameBuffer)
    → IsBytes old
    → IsBytes new
    → frame_buffer_used f ≤ size
    → Shows bitrev scr old 0 fb_size
    → (ps : List PacketHeader) × Encoded
        (leb (frame_buffer_used f + length (all_bytes ps)) size)
        f
        ps
        (encode_diff_to_buffer size bitrev old new new_frame f)
      × (receive (length ps) (all_bytes ps) (scr, flags)
          ≡ some (draw_all ps scr, last_flags flags ps))
      × Shows bitrev (draw_all ps scr) new 0 fb_size
encode_diff_to_buffer-receive size bitrev new_frame old new scr flags f ho hn room shows =
    let r = encode_diff_to_buffer-Frame size bitrev new_frame old new f ho hn room in
    (
      r.packets,
      r.encoded,
      receive-all_bytes r.packets (length r.packets) scr flags r.sound (omega arith),
      r.shows scr shows,
    )
