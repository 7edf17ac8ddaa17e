-- ===== src/Tools/PatternTest/Carried.antt =====
-- What the bytes on the wire and in the buffer of the pattern test carry the display to.
use p4_hmd.Base.{ℕ, ◌+◌, ◌≡◌, ◌≤◌, refl, sym, ◌∙◌, ap, subst, arith}
use p4_hmd.Base.{Bool, true, false, Bool-cases, leb, ◌==◌, inl, inr, Option, none, some}
use p4_hmd.Base.{List, [], ◌∷◌, ◌++◌, length, length-append, append_assoc, All, All-append}
use p4_hmd.Base.{go_on, if◌then◌else◌}
use p4_hmd.Update.Word.{Buffer}
use p4_hmd.Update.Packet.{PacketHeader}
use p4_hmd.Update.Display.{draw_all, draw_all-append}
use p4_hmd.Update.Encoder.{fb_size}
use p4_hmd.Update.Encoder.Sound.{IsSound}
use p4_hmd.Update.Encoder.Correct.{Shows}
use p4_hmd.Driver.Buffer.Laws.{all_bytes, all_bytes-append}
use p4_hmd.Tools.Calibrate.{FrameBuffer, frame_buffer_used}
use p4_hmd.Tools.Calibrate.Frames.{Frame, with_packets}
use p4_hmd.Tools.Spi.{Calls, Line, spi_send_bytes_timed, send_frame_buffer_timed}
use p4_hmd.Tools.Spi.Sent.{wire, Sending, Sending-wire, spi_send_bytes_timed-Sending}
use p4_hmd.Tools.PatternTest.{
  Session, frame_buffer_size, emptied, after_send, after_encode, give_up, send_frames,
}

-- The bytes sent since the wire had carried `before`, with those that wait in the buffer, are those of
-- packets that carry any display to `fb`.
pub record Carries (before : List ℕ) (bitrev : Bool) (fb : Buffer) (s : Session) : Type 0 where
  pub packets : List PacketHeader
  pub sound : All IsSound packets
  pub bytes : wire s.line.events ++ s.frame_buffer.bytes ≡ before ++ all_bytes packets
  pub room : frame_buffer_used s.frame_buffer ≤ frame_buffer_size
  pub shows : (scr : Buffer) → Shows bitrev (draw_all packets scr) fb 0 fb_size

-- The test has given up: ENABLE is low, and a part of the bytes of such packets has been sent.
pub record IsBroken (before : List ℕ) (s : Session) : Type 0 where
  pub packets : List PacketHeader
  pub left : List ℕ
  pub sound : All IsSound packets
  pub bytes : wire s.line.events ++ left ≡ before ++ all_bytes packets
  pub disabled : s.enable ≡ false

-- `P` if a step went well.
abbrev pub Outcome : List ℕ → (Session → Type 0) → Bool × Session → Type 0
Outcome before P (true, s) = P s
Outcome before P (false, s) = IsBroken before s

pub Outcome-go_on :
    (before : List ℕ) (P Q : Session → Type 0) (r : Bool × Session) (k : Session → Bool × Session)
    → Outcome before P r
    → ((s : Session) → P s → Outcome before Q (k s))
    → Outcome before Q (go_on r k)
Outcome-go_on before P Q (true, s) k h f = f s h
Outcome-go_on before P Q (false, s) k h f = h

pub Outcome-map :
    (before : List ℕ) (P Q : Session → Type 0) (r : Bool × Session)
    → Outcome before P r
    → ((s : Session) → P s → Q s)
    → Outcome before Q r
Outcome-map before P Q (true, s) h f = f s h
Outcome-map before P Q (false, s) h f = h

pub Outcome-if :
    (before : List ℕ) (P : Session → Type 0) (b : Bool) (x y : Bool × Session)
    → (b ≡ true → Outcome before P x)
    → (b ≡ false → Outcome before P y)
    → Outcome before P (if b then x else y)
Outcome-if before P true x y f g = f refl
Outcome-if before P false x y f g = g refl

-- The buffer is empty.
abbrev pub IsSent : Session → Type 0
IsSent s = s.frame_buffer.bytes ≡ []

-- A session that carries `fb`, and otherwise only what `s` has.
abbrev pub Next : List ℕ → Bool → Buffer → Session → Session → Type 0
Next before bitrev fb s s' = Carries before bitrev fb s' × (s'.old_fb ≡ s.old_fb)

module _ (os : Calls) (before : List ℕ) (bitrev : Bool) (fb : Buffer) where
  after_send-Carries :
      (s : Session) (c : Carries before bitrev fb s) (waits : Option ℕ) (line : Line) (sum : ℕ)
      → Sending s.frame_buffer.bytes s.line (waits, line)
      → Outcome before
          (λ s'. Next before bitrev fb s s' × IsSent s')
          (after_send s waits (emptied s.frame_buffer, sum, line))
  after_send-Carries s c (some w) line sum h =
      let all = Sending-wire s.frame_buffer.bytes s.line (some w, line) h in
      let out : wire line.events ++ [] ≡ wire s.line.events ++ s.frame_buffer.bytes =
        ap (λ xs. wire line.events ++ xs) (sym (h.done refl)) ∙ all in
      (
        (
          record {
            packets = c.packets;
            sound = c.sound;
            bytes = out ∙ c.bytes;
            room = omega arith;
            shows = c.shows;
          },
          refl,
        ),
        refl,
      )
  after_send-Carries s c none line sum h =
      let all = Sending-wire s.frame_buffer.bytes s.line (none, line) h in
      record {
        packets = c.packets;
        left = h.left;
        sound = c.sound;
        bytes = all ∙ c.bytes;
        disabled = refl;
      }

  pub length-zero : (xs : List ℕ) → (length xs == 0) ≡ true → xs ≡ []
  length-zero [] h = refl
  length-zero (x ∷ xs) h = absurd (ground arith)

  pub send_frames-Carries :
      (s : Session)
      → Carries before bitrev fb s
      → Outcome before (λ s'. Next before bitrev fb s s' × IsSent s') (send_frames os s)
  unfolding send_frames send_frame_buffer_timed
  send_frames-Carries s c =
      let r = spi_send_bytes_timed os s.frame_buffer.bytes s.cumulative_bytes_sent s.line in
      elim (Bool-cases (frame_buffer_used s.frame_buffer == 0)) [
        | inl t ↦ rw t (
          (
            record {
              packets = c.packets;
              sound = c.sound;
              bytes = c.bytes;
              room = c.room;
              shows = c.shows;
            },
            refl,
          ),
          length-zero s.frame_buffer.bytes t,
        )
        | inr f ↦ rw f (
            after_send-Carries s c r.0 r.1 _ (
              spi_send_bytes_timed-Sending os s.frame_buffer.bytes s.cumulative_bytes_sent s.line
                (ground arith)))
      ]

-- What is known when a frame is encoded behind `f`: packets that have gone into it or out.
pub record Ready (before : List ℕ) (s : Session) (f : FrameBuffer) (Before : Buffer → Type 0)
    : Type 0 where
  pub packets : List PacketHeader
  pub sound : All IsSound packets
  pub bytes : wire s.line.events ++ f.bytes ≡ before ++ all_bytes packets
  pub holds : (scr : Buffer) → Before (draw_all packets scr)

module _ (before : List ℕ) (bitrev : Bool) (fb : Buffer) (s : Session) (f : FrameBuffer)
    (Before : Buffer → Type 0) (ready : Ready before s f Before) where
  encoded-Carries :
      (ps : List PacketHeader)
      → All IsSound ps
      → frame_buffer_used f + length (all_bytes ps) ≤ frame_buffer_size
      → ((scr : Buffer) → Before scr → Shows bitrev (draw_all ps scr) fb 0 fb_size)
      → (n : ℕ)
      → Carries before bitrev fb (record s {
        frame_buffer = with_packets (record f { packet_count = 0 }) ps;
        total_packets = n;
      })
  encoded-Carries ps sound fits shows n = record {
    packets = ready.packets ++ ps;
    sound = All-append IsSound ready.packets ps ready.sound sound;
    bytes =
        sym (append_assoc (wire s.line.events) f.bytes (all_bytes ps))
        ∙ ap (λ xs. xs ++ all_bytes ps) ready.bytes
        ∙ append_assoc before (all_bytes ready.packets) (all_bytes ps)
        ∙ ap (λ xs. before ++ xs) (sym (all_bytes-append ready.packets ps));
    room = omega (arith, length-append f.bytes (all_bytes ps));
    shows = λ scr.
        rw (draw_all-append ready.packets ps scr)
          (shows (draw_all ready.packets scr) (ready.holds scr));
  }

  broken : (f' : FrameBuffer) → IsBroken before (give_up (record s { frame_buffer = f' })).1
  broken f' = record {
    packets = ready.packets;
    left = f.bytes;
    sound = ready.sound;
    bytes = ready.bytes;
    disabled = refl;
  }

  pub after_encode-Outcome :
      (P : Session → Type 0) (r : Option ℕ × FrameBuffer) (next : Session → Bool × Session)
      → Frame frame_buffer_size bitrev fb f r Before
      → ((s' : Session) → Next before bitrev fb s s' → Outcome before P (next s'))
      → Outcome before P (after_encode s r.0 r.1 next)
  after_encode-Outcome P r next frame k =
      elim (Bool-cases
        (leb (frame_buffer_used f + length (all_bytes frame.packets)) frame_buffer_size)) [
          | inl t ↦
              let e : r ≡ (
                some (length frame.packets),
                with_packets (record f { packet_count = 0 }) frame.packets,
              ) =
                rw t at frame.encoded in
              subst
                (λ (r' : Option ℕ × FrameBuffer). Outcome before P (after_encode s r'.0 r'.1 next))
                (sym e)
                (k _ (encoded-Carries frame.packets frame.sound (ground arith) frame.shows _, refl))
          | inr u ↦
              let e : r.0 ≡ none = rw u at frame.encoded in
              subst (λ (o : Option ℕ). Outcome before P (after_encode s o r.1 next)) (sym e)
                (broken r.1)
        ]
