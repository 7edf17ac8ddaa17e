-- ===== src/Pipe/Run/Round.antt =====
-- A round of the drainer keeps the invariant.
use p4_hmd.Base.{
  ℕ, suc, drop, ◌+◌, ◌≡◌, ◌≤◌, refl, sym, ◌∙◌, subst, arith, Bool, true, false, not, ◌&&◌, ◌||◌,
}
use p4_hmd.Base.{if_ind, if◌then◌else◌, List, [], ◌++◌, length, length-append, ltb, ◌==◌}
use p4_hmd.Update.Word.{IsBytes}
use p4_hmd.Update.Packet.{PacketHeader, pkt_init_flags_only, pkt_is_flags_only, pkt_addr, pkt_len}
use p4_hmd.Update.Encoder.{fb_size}
use p4_hmd.Driver.State.{Device, buf_len, flags_byte}
use p4_hmd.Driver.Buffer.{spi_buf_size, buf_is_empty, buf_reset, buf_emit, packet_bytes}
use p4_hmd.Driver.Buffer.Laws.{all_bytes, length-packet_bytes}
use p4_hmd.Driver.Frame.{start_frame, encode_buffers, finish_frame, encode_frame}
use p4_hmd.Driver.Frame.Packets.{encode_buffers-Encodes}
use p4_hmd.Driver.Frame.Correct.{frame_state, Outcome, encoded, refused, encode_buffers-Outcome}
use p4_hmd.Driver.Drainer.{
  ChunkEnv, SendResult, queue_flags, swap_reference, finish_send, send_buffer, fill_buffer,
  drainer_round, send_chunks,
}
use p4_hmd.Driver.Drainer.Sent.{
  transferred, Sending, all_sent, gave_up, was_stopped, send_chunks-Sending,
}
use p4_hmd.Pipe.Run.Invariant.{
  View, Invariant, view, IsValid, Invariant-emptied, Invariant-full, Invariant-buffers,
}

-- A device with a frame in its buffer.
framed_view :
    (do_full : Bool) (s : Device) (bytes : List ℕ)
    → view (frame_state do_full s bytes) ≡ record (view s) {
      buf = bytes;
      buf_pos = 0;
      candidate = s.dst_buf_0;
      reference = if do_full then (λ _. 0) else s.dst_buf_2;
    }
unfolding start_frame buf_reset
framed_view true s bytes = refl
framed_view false s bytes = refl

frame_state-IsValid :
    (s : Device) (bytes : List ℕ)
    → IsValid s
    → length bytes ≤ spi_buf_size
    → IsValid (frame_state s.force_full s bytes)
frame_state-IsValid s bytes h le =
    let b = s.force_full in
    subst Invariant (sym (framed_view b s bytes)) (
      Invariant-buffers (view s) bytes 0 s.dst_buf_0 (if b then (λ _. 0) else s.dst_buf_2) le
        (omega arith) h.frame
        (if_ind IsBytes b (λ _. 0) s.dst_buf_2 (λ _ j. omega arith) (λ _. h.reference)) h)

frame_state-online :
    (do_full : Bool) (s : Device) (bytes : List ℕ)
    → (frame_state do_full s bytes).device_online ≡ s.device_online
unfolding start_frame buf_reset
frame_state-online true s bytes = refl
frame_state-online false s bytes = refl

finish_frame-IsValid :
    (s x : Device) (ok : Bool)
    → x.device_online ≡ true
    → IsValid x
    → IsValid (finish_frame (ok, x)).1
unfolding finish_frame buf_reset
finish_frame-IsValid s x false on h = Invariant-emptied (view x) h
finish_frame-IsValid s x true on h =
    if_ind (λ (q : Bool × Device). IsValid q.1) (buf_is_empty x) (false, record x { dirty = false })
      (true, record x { dirty = false; force_full = false }) (λ _. h)
      (λ _. Invariant-full (view x) false on h)

frame_end-IsValid :
    (s : Device) (ps : List PacketHeader)
    → s.device_online ≡ true
    → IsValid s
    → Outcome s ps
    → IsValid (finish_frame (encode_buffers (start_frame s))).1
frame_end-IsValid s ps on h (encoded e le) =
    let x = frame_state s.force_full s (all_bytes ps) in
    rw e (
      finish_frame-IsValid s x true (frame_state-online s.force_full s (all_bytes ps) ∙ on)
        (frame_state-IsValid s (all_bytes ps) h le))
frame_end-IsValid s ps on h (refused bytes e) = rw e (
    unfold finish_frame buf_reset in
    subst (λ (v : View). Invariant (record v { buf = []; buf_pos = 0 }))
      (sym (framed_view s.force_full s bytes))
      (Invariant-emptied _ (
        subst Invariant (framed_view s.force_full s [])
          (frame_state-IsValid s [] h (omega arith)))))

encode_frame-IsValid : (s : Device) → IsValid s → IsValid (encode_frame s).1
unfolding encode_frame
encode_frame-IsValid s h =
    let (ps, enc) =
      encode_buffers-Encodes (start_frame s) (unfold start_frame buf_reset in h.frame)
        (unfold start_frame buf_reset in h.reference) in
    if_ind (λ (q : Bool × Device). IsValid q.1) (not s.device_online) _ _ (λ _. h)
      (λ on.
        if_ind (λ (q : Bool × Device). IsValid q.1) (not s.dirty) _ _ (λ _. h)
          (λ _. frame_end-IsValid s ps (ground arith) h (encode_buffers-Outcome s ps enc)))

buf_emit-IsValid : (p : PacketHeader) (s : Device) → IsValid s → IsValid (buf_emit p s).1
unfolding buf_emit
buf_emit-IsValid p s h =
    let P = λ (q : Bool × Device). IsValid q.1 in
    if_ind P (not (pkt_is_flags_only p) && ltb fb_size (pkt_addr p + pkt_len p)) _ _ (λ _. h)
      (λ _.
        if_ind P (not s.enabled || not s.device_online) _ _ (λ _. h)
          (λ _.
            if_ind P (ltb spi_buf_size (buf_len s + (p.size + p.data_len))) (false, s)
              (true, record s { buf = s.buf ++ packet_bytes p }) (λ _. h)
              (λ fits.
                Invariant-buffers (view s) (s.buf ++ packet_bytes p) s.buf_pos s.dst_buf_1
                  s.dst_buf_2
                  (ground (arith, length-append s.buf (packet_bytes p), length-packet_bytes p))
                  (omega (arith, h.placed, length-append s.buf (packet_bytes p))) h.candidate
                  h.reference h)))

queue_flags-IsValid : (s : Device) → IsValid s → IsValid (queue_flags s)
unfolding queue_flags
queue_flags-IsValid s h =
    let pkt = pkt_init_flags_only (flags_byte s.display_flags) in
    if_ind IsValid (buf_is_empty s && not (flags_byte s.display_flags == s.last_sent_flags))
      (buf_emit pkt s).1 s (λ _. buf_emit-IsValid pkt s h) (λ _. h)

fill_buffer-IsValid : (s : Device) → IsValid s → IsValid (fill_buffer s)
unfolding fill_buffer
fill_buffer-IsValid s h =
    queue_flags-IsValid _
      (if_ind IsValid s.hw_vsync (encode_frame s).1 s (λ _. encode_frame-IsValid s h) (λ _. h))

sent_all-IsValid : (s : Device) → IsValid s → IsValid (finish_send (SendResult.sent, s))
unfolding finish_send swap_reference buf_reset
sent_all-IsValid s h =
    let swapped =
      Invariant-buffers (view s) [] 0 s.dst_buf_2 s.dst_buf_1 (omega arith) (omega arith)
        h.reference h.candidate h in
    if_ind (λ (x : Device). IsValid (record (buf_reset x) { send_done = suc x.send_done }))
      (s.buf_pos == buf_len s && ltb 0 (buf_len s)) (swap_reference s) s (λ _. swapped)
      (λ _. Invariant-emptied (view s) h)

finish_send-IsValid :
    (env : ℕ → ChunkEnv) (s : Device) (r : SendResult × Device)
    → IsValid s
    → Sending env s r
    → IsValid (finish_send r)
finish_send-IsValid env s r h (all_sent c e) = rw e (
    sent_all-IsValid (record (transferred s c (drop s.buf_pos s.buf)) { buf_pos = buf_len s })
      (Invariant-buffers (view s) s.buf (buf_len s) s.dst_buf_1 s.dst_buf_2 h.room (omega arith)
        h.candidate h.reference h))
finish_send-IsValid env s r h (gave_up c k bytes left bad some_left p e) =
    rw e (unfold finish_send buf_reset in Invariant-emptied (view s) h)
finish_send-IsValid env s r h (was_stopped c k bytes left pos bad stop some_left at p e) = rw e (
    unfold finish_send in
    Invariant-buffers (view s) s.buf pos s.dst_buf_1 s.dst_buf_2 h.room at h.candidate h.reference
      h)

send_buffer-IsValid :
    (ready : Bool) (env : ℕ → ChunkEnv) (s : Device) → IsValid s → IsValid (send_buffer ready env s)
unfolding send_buffer buf_reset
send_buffer-IsValid ready env s h =
    if_ind IsValid (buf_is_empty s || not s.device_online || not ready) _ _
      (λ _. Invariant-emptied (view s) h)
      (λ _.
        finish_send-IsValid env s (send_chunks (buf_len s) env s) h
          (send_chunks-Sending (buf_len s) env s h.placed (omega arith)))

pub drainer_round-IsValid :
    (ready : Bool) (env : ℕ → ChunkEnv) (s : Device)
    → IsValid s
    → IsValid (drainer_round ready env s)
unfolding drainer_round
drainer_round-IsValid ready env s h =
    send_buffer-IsValid ready env _ (fill_buffer-IsValid (record s { vsync = 0 }) h)
