-- ===== src/Driver/Frame/Packets.antt =====
-- `encode_buffers` as a source of packets.
use p4_hmd.Base.{◌≡◌, refl, sym, ◌∙◌, ap, arith, Bool, true, false, List, [], ◌∷◌}
use p4_hmd.Base.{◌≢◌, feed, All, Bool-cases, inl, inr, if◌then◌else◌}
use p4_hmd.Update.Word.{Buffer, IsBytes}
use p4_hmd.Update.Packet.{PacketHeader}
use p4_hmd.Update.Display.{draw, draw_all}
use p4_hmd.Update.Encoder.{fb_size}
use p4_hmd.Update.Encoder.Sound.{IsSound}
use p4_hmd.Update.Encoder.Correct.{Shows}
use p4_hmd.Driver.State.{Device}
use p4_hmd.Driver.Buffer.{packet_bytes, buf_emit, clear_packet, p4_send_clear}
use p4_hmd.Driver.Buffer.Laws.{with_bytes, accepts, buf_emit_lem}
use p4_hmd.Driver.Buffer.Wire.{p4_send_diff-feed, clear_packet-IsSound, clear_packet-draw}
use p4_hmd.Driver.Frame.{encode_buffers, encode_with}

-- The state in which the frame is sent: before a full refresh the reference is zeroed.
abbrev pub reference_for : Bool → Device → Device
reference_for do_full s = if do_full then record s { dst_buf_2 = λ _. 0 } else s

abbrev pub reference : Device → Device
reference s = reference_for s.force_full s

-- `ps` carries the display from the reference, or from anything if the refresh is full, to the new
-- frame.
abbrev pub Carries : Device → List PacketHeader → Type 0
Carries s ps =
    (scr : Buffer)
    → (s.force_full ≡ false → Shows s.is_native scr s.dst_buf_2 0 fb_size)
    → Shows s.is_native (draw_all ps scr) s.dst_buf_1 0 fb_size

pub record Encodes (s : Device) (ps : List PacketHeader) : Type 0 where
  pub result : encode_buffers s ≡ feed buf_emit ps (reference s)
  pub sound : All IsSound ps
  pub carries : Carries s ps
  pub full : s.force_full ≡ true → ps ≢ []

full_refresh :
    (s : Device)
    → s.force_full ≡ true
    → IsBytes s.dst_buf_1
    → (ps : List PacketHeader) × Encodes s ps
unfolding encode_buffers encode_with p4_send_clear
full_refresh s f h1 =
    let clear = clear_packet s.is_native in
    let zeroed = record s { dst_buf_2 = λ _. 0 } in
    let s1 = with_bytes zeroed (packet_bytes clear) in
    let (ps, sent, sound, drawn) =
      p4_send_diff-feed s1 (λ _. 0) s.dst_buf_1 false (λ j. omega arith) h1 in
    let result : encode_with true s ≡ feed buf_emit (clear ∷ ps) zeroed =
      elim (Bool-cases (accepts clear zeroed)) [
        | inl t ↦ rw (buf_emit_lem clear zeroed, t) sent
        | inr n ↦ rw (buf_emit_lem clear zeroed, n) refl
      ] in
    (
      clear ∷ ps,
      record {
        result =
            ap (λ b. encode_with b s) f
            ∙ result
            ∙ sym (ap (λ b. feed buf_emit (clear ∷ ps) (reference_for b s)) f);
        sound = (clear_packet-IsSound s.is_native, sound);
        carries = λ scr _. drawn (draw clear scr) (clear_packet-draw s.is_native scr);
        full = λ _ e. cc;
      },
    )

differences :
    (s : Device)
    → s.force_full ≡ false
    → IsBytes s.dst_buf_1
    → IsBytes s.dst_buf_2
    → (ps : List PacketHeader) × Encodes s ps
unfolding encode_buffers encode_with
differences s f h1 h2 =
    let (ps, sent, sound, drawn) = p4_send_diff-feed s s.dst_buf_2 s.dst_buf_1 true h2 h1 in
    (
      ps,
      record {
        result =
            ap (λ b. encode_with b s) f
            ∙ sent
            ∙ sym (ap (λ b. feed buf_emit ps (reference_for b s)) f);
        sound = sound;
        carries = λ scr h. drawn scr (h f);
        full = λ t. cc;
      },
    )

pub encode_buffers-Encodes :
    (s : Device)
    → IsBytes s.dst_buf_1
    → IsBytes s.dst_buf_2
    → (ps : List PacketHeader) × Encodes s ps
encode_buffers-Encodes s h1 h2 = elim (Bool-cases s.force_full) [
  | inl t ↦ full_refresh s t h1
  | inr f ↦ differences s f h1 h2
]
