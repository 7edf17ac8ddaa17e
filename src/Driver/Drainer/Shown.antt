-- ===== src/Driver/Drainer/Shown.antt =====
-- A round of the drainer that finds a frame: what the display shows after it.
use p4_hmd.Base.{ℕ, suc, ◌⊎◌, ◌≡◌, ◌<◌, refl, sym, subst, ◌∙◌, ap, arith, Bool, true, false}
use p4_hmd.Base.{List, [], ◌++◌, append-nil, drop, length, ltb, Bool-cases, some}
use p4_hmd.Base.{inl, inr, if◌then◌else◌, not, ◌&&◌, ◌||◌, ◌==◌}
use p4_hmd.Update.Word.{Buffer, IsBytes}
use p4_hmd.Update.Receiver.{receive}
use p4_hmd.Update.Encoder.{fb_size}
use p4_hmd.Update.Encoder.Correct.{Shows}
use p4_hmd.Driver.State.{Device, buf_len, flags_byte}
use p4_hmd.Driver.Buffer.{buf_is_empty, buf_reset}
use p4_hmd.Driver.Frame.{encode_frame}
use p4_hmd.Driver.Frame.Packets.{reference, reference_for}
use p4_hmd.Driver.Frame.Correct.{FrameReady, encode_frame-FrameReady}
use p4_hmd.Driver.Drainer.{
  ChunkEnv, SendResult, finish_send, send_buffer, queue_flags, fill_buffer, swap_reference,
  drainer_round,
}
use p4_hmd.Driver.Drainer.Sent.{
  Sending, Fails, all_sent, gave_up, was_stopped, send_chunks-Sending, transferred,
}

-- The bytes of a frame: a display that reads all of them shows the frame, if it showed the old reference
-- before, or whatever it showed if the refresh is full.
abbrev pub Carrying : Device → List ℕ → Type 0
Carrying s whole =
    (scr : Buffer) (flags : ℕ)
    → (s.force_full ≡ false → Shows s.is_native scr s.dst_buf_2 0 fb_size)
    → (scr' : Buffer) × (flags' : ℕ) × (receive (length whole) whole (scr, flags)
        ≡ some (scr', flags'))
      × Shows s.is_native scr' s.dst_buf_0 0 fb_size

-- READY is low before the first chunk, or in some round of the send loop it does not come or the
-- transfer is refused.
abbrev pub Interrupted : Bool → (ℕ → ChunkEnv) → Type 0
Interrupted ready env = (ready ≡ false) ⊎ ((k : ℕ) × Fails (env k))

-- How a round that found a frame of the bytes `whole` ends: all of them went out, and the frame is the
-- new reference; or the sending was interrupted with some left, and the reference is the one that the
-- frame was encoded against, although the frame no longer counts as dirty.
pub data RoundEnd (ready : Bool) (env : ℕ → ChunkEnv) (whole : List ℕ) (s s' : Device)
    : Type 0 where
  delivered :
      s'.spi_bytes ≡ s.spi_bytes ++ whole
      → s'.dst_buf_2 ≡ s.dst_buf_0
      → s'.last_sent_flags ≡ flags_byte s'.display_flags
      → RoundEnd ready env whole s s'
  lost :
      (bytes left : List ℕ)
      → Interrupted ready env
      → bytes ++ left ≡ whole
      → 0 < length left
      → s'.spi_bytes ≡ s.spi_bytes ++ bytes
      → s'.dst_buf_2 ≡ (reference s).dst_buf_2
      → s'.dirty ≡ false
      → RoundEnd ready env whole s s'

pub finish_sent :
    (s : Device)
    → s.buf_pos ≡ buf_len s
    → 0 < buf_len s
    → finish_send (SendResult.sent, s)
      ≡ record (buf_reset (swap_reference s)) { send_done = suc s.send_done }
unfolding finish_send buf_reset swap_reference
finish_sent s e p =
    let t : ((s.buf_pos == buf_len s) && ltb 0 (buf_len s)) ≡ true = ground arith in rw t refl

module _ (s f : Device) (h : FrameReady s f) (ready : Bool) (env : ℕ → ChunkEnv) where
  nonempty : 0 < buf_len f
  unfolding buf_is_empty
  nonempty = ground (arith, h.not_empty, h.from_start)

  whole_left : drop f.buf_pos f.buf ≡ f.buf
  whole_left = ap (λ (n : ℕ). drop n f.buf) h.from_start

  not_sent :
      Interrupted ready env
      → RoundEnd ready env f.buf s (record (buf_reset f) { send_done = suc f.send_done })
  unfolding buf_reset
  not_sent why =
      lost [] f.buf why refl nonempty (h.unsent ∙ sym (append-nil s.spi_bytes)) h.old_reference
        h.clean

  end_send :
      (r : SendResult × Device) → Sending env f r → RoundEnd ready env f.buf s (finish_send r)
  unfolding finish_send buf_reset swap_reference
  end_send r (all_sent c e) =
      let f' = record (transferred f c (drop f.buf_pos f.buf)) { buf_pos = buf_len f } in
      rw (e, finish_sent f' refl nonempty)
        (delivered (rw (h.unsent, h.from_start) refl) h.candidate refl)
  end_send r (gave_up c k bytes left bad some_left p e) = rw e (
      lost bytes left (inr (k, bad)) (p ∙ whole_left) some_left (rw h.unsent refl) h.old_reference
        h.clean)
  end_send r (was_stopped c k bytes left pos bad stop some_left at p e) = rw e (
      lost bytes left (inr (k, bad)) (p ∙ whole_left) some_left (rw h.unsent refl) h.old_reference
        h.clean)

  send_buffer-RoundEnd :
      s.device_online ≡ true → RoundEnd ready env f.buf s (send_buffer ready env f)
  unfolding send_buffer
  send_buffer-RoundEnd online =
      elim (Bool-cases (buf_is_empty f || not f.device_online || not ready)) [
        | inl t ↦
            let low : ready ≡ false = ground (arith, h.not_empty, h.same_online ∙ online) in
            rw t (not_sent (inl low))
        | inr n ↦ rw n (
            end_send _
              (send_chunks-Sending (buf_len f) env f (omega (arith, h.from_start)) (omega arith)))
      ]

  -- The frame's bytes are those of the buffer.
  buffer-Carrying : Carrying s f.buf
  buffer-Carrying scr flags old = h.delivers scr old flags

-- The count of vsyncs plays no part in a frame.
vsync_reference :
    (b : Bool) (s : Device)
    → (reference_for b (record s { vsync = 0 })).dst_buf_2 ≡ (reference_for b s).dst_buf_2
vsync_reference true s = refl
vsync_reference false s = refl

FrameReady-vsync : (s f : Device) → FrameReady (record s { vsync = 0 }) f → FrameReady s f
FrameReady-vsync s f h = record {
  clean = h.clean;
  refreshed = h.refreshed;
  candidate = h.candidate;
  from_start = h.from_start;
  not_empty = h.not_empty;
  room = h.room;
  old_reference = h.old_reference ∙ vsync_reference s.force_full s;
  same_native = h.same_native;
  same_online = h.same_online;
  unsent = h.unsent;
  delivers = h.delivers;
}

queue_nothing : (f : Device) → buf_is_empty f ≡ false → queue_flags f ≡ f
unfolding queue_flags
queue_nothing f e = rw e refl

fill_frame :
    (s f : Device)
    → s.hw_vsync ≡ true
    → (encode_frame s).1 ≡ f
    → buf_is_empty f ≡ false
    → fill_buffer s ≡ f
unfolding fill_buffer
fill_frame s f hw e full =
    ap (λ (b : Bool). queue_flags (if b then (encode_frame s).1 else s)) hw
    ∙ ap queue_flags e
    ∙ queue_nothing f full

encode_frame_online : (s : Device) → (encode_frame s).0 ≡ true → s.device_online ≡ true
unfolding encode_frame
encode_frame_online s e = elim (Bool-cases s.device_online) [
  | inl t ↦ t
  | inr f ↦ let x : false ≡ true = rw f at e in cc
]

-- When a round of the drainer on a hardware vsync finds a frame, there are the bytes of the frame, which
-- carry a display from the old reference, or from anything if the refresh is full, to the frame. Either
-- all of them go out, the frame is the new reference and its flags count as sent; or READY is low or
-- does not come, or a transfer is refused, only a part of the bytes goes out, with at least one left,
-- the reference stays the one that the frame was encoded against, and the frame is not dirty any more.
pub drainer_round-RoundEnd :
    (ready : Bool) (env : ℕ → ChunkEnv) (s : Device)
    → IsBytes s.dst_buf_0
    → IsBytes s.dst_buf_2
    → s.hw_vsync ≡ true
    → (encode_frame (record s { vsync = 0 })).0 ≡ true
    → (whole : List ℕ) × Carrying s whole × RoundEnd ready env whole s (drainer_round ready env s)
unfolding drainer_round
drainer_round-RoundEnd ready env s h0 h2 hw e =
    let s0 = record s { vsync = 0 } in
    let f = (encode_frame s0).1 in
    let found = encode_frame-FrameReady s0 h0 h2 e in
    let k = FrameReady-vsync s f found in
    (
      f.buf,
      buffer-Carrying s f k ready env,
      subst (λ (x : Device). RoundEnd ready env f.buf s (send_buffer ready env x))
          (sym (fill_frame s0 f hw refl found.not_empty))
          (send_buffer-RoundEnd s f k ready env (encode_frame_online s0 e)),
    )
