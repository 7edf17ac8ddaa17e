-- ===== src/Driver/Drainer/Flags.antt =====
-- A round of the drainer that has flags to send and no frame.
use p4_hmd.Base.{
  ℕ, ◌+◌, ◌≡◌, ◌≢◌, ◌<◌, ◌⊎◌, inl, inr, refl, sym, ◌∙◌, ap, subst, arith, Bool, true, false,
}
use p4_hmd.Base.{
  leb, if_ind, not, ◌&&◌, ◌||◌, ◌==◌, ltb, List, [], ◌++◌, length, append-nil, if◌then◌else◌,
}
use p4_hmd.Update.Packet.{PacketHeader, pkt_init_flags_only, pkt_is_flags_only}
use p4_hmd.Driver.State.{Device, buf_len, flags_byte}
use p4_hmd.Driver.Buffer.{spi_buf_size, buf_is_empty, buf_reset, buf_emit, packet_bytes}
use p4_hmd.Driver.Buffer.Laws.{length-packet_bytes}
use p4_hmd.Driver.Frame.{encode_frame}
use p4_hmd.Driver.Drainer.{
  ChunkEnv, SendResult, queue_flags, swap_reference, finish_send, send_buffer, fill_buffer,
  drainer_round, send_chunks,
}
use p4_hmd.Driver.Drainer.Sent.{
  transferred, Sending, all_sent, gave_up, was_stopped, send_chunks-Sending,
}
use p4_hmd.Driver.Drainer.Shown.{Interrupted, finish_sent}

abbrev pub flags_bytes : Device → List ℕ
flags_bytes s = packet_bytes (pkt_init_flags_only (flags_byte s.display_flags))

-- How such a round ends: the flags went out, and reference and candidate have changed places; or the
-- sending was interrupted with a part of them left, and the flags are still to be sent.
pub data FlagsEnd (ready : Bool) (env : ℕ → ChunkEnv) (s s' : Device) : Type 0 where
  flags_sent :
      s'.spi_bytes ≡ s.spi_bytes ++ flags_bytes s
      → s'.last_sent_flags ≡ flags_byte s.display_flags
      → s'.dst_buf_1 ≡ s.dst_buf_2
      → s'.dst_buf_2 ≡ s.dst_buf_1
      → FlagsEnd ready env s s'
  flags_lost :
      (bytes left : List ℕ)
      → Interrupted ready env
      → bytes ++ left ≡ flags_bytes s
      → 0 < length left
      → s'.spi_bytes ≡ s.spi_bytes ++ bytes
      → s'.last_sent_flags ≡ s.last_sent_flags
      → s'.dst_buf_1 ≡ s.dst_buf_1
      → s'.dst_buf_2 ≡ s.dst_buf_2
      → FlagsEnd ready env s s'

flags_size : (f : ℕ) → (pkt_init_flags_only f).size ≡ 2
unfolding pkt_init_flags_only
flags_size f = refl

module _ (s : Device) where
  abbrev queued : Device
  queued = record s { vsync = 0; buf = flags_bytes s; buf_pos = 0 }

  some_bytes : 0 < length (flags_bytes s)
  some_bytes = omega (
    arith,
    length-packet_bytes (pkt_init_flags_only (flags_byte s.display_flags)),
    flags_size (flags_byte s.display_flags),
  )

  end_send :
      (ready : Bool) (env : ℕ → ChunkEnv) (r : SendResult × Device)
      → Sending env queued r
      → FlagsEnd ready env s (finish_send r)
  unfolding finish_send buf_reset swap_reference
  end_send ready env r (all_sent c e) =
      let f' = record (transferred queued c (flags_bytes s)) { buf_pos = buf_len queued } in
      rw (e, finish_sent f' refl some_bytes) (flags_sent refl refl refl refl)
  end_send ready env r (gave_up c k bytes left bad some_left p e) =
      rw e (flags_lost bytes left (inr (k, bad)) p some_left refl refl refl refl)
  end_send ready env r (was_stopped c k bytes left pos bad stop some_left at p e) =
      rw e (flags_lost bytes left (inr (k, bad)) p some_left refl refl refl refl)

  abbrev pkt : PacketHeader
  pkt = pkt_init_flags_only (flags_byte s.display_flags)

  -- No frame is put into the buffer.
  no_frame :
      (s.hw_vsync ≡ false) ⊎ (s.dirty ≡ false)
      → (if s.hw_vsync then (encode_frame (record s { vsync = 0 })).1 else record s { vsync = 0 })
        ≡ record s { vsync = 0 }
  unfolding encode_frame
  no_frame (inl soft) = rw soft refl
  no_frame (inr clean) =
      let s0 = record s { vsync = 0 } in
      if_ind (λ (q : Device). q ≡ s0) s.hw_vsync (encode_frame s0).1 s0
        (λ _.
          if_ind (λ (q : Bool × Device). q.1 ≡ s0) (not s.device_online) _ _ (λ _. refl)
            (λ _.
              if_ind (λ (q : Bool × Device). q.1 ≡ s0) (not s.dirty) _ _ (λ _. refl)
                (λ f. absurd (ground (arith, clean)))))
        (λ _. refl)

  -- The packet is accepted.
  flags_queued :
      s.enabled ≡ true
      → s.device_online ≡ true
      → s.buf ≡ []
      → (buf_emit pkt (record s { vsync = 0 })).1
        ≡ record s { vsync = 0; buf = s.buf ++ flags_bytes s }
  unfolding buf_emit pkt_is_flags_only pkt_init_flags_only
  flags_queued en on empty =
      let s0 = record s { vsync = 0 } in
      let goal = record s { vsync = 0; buf = s.buf ++ flags_bytes s } in
      let none : length s.buf ≡ 0 = ap length empty in
      if_ind (λ (q : Bool × Device). q.1 ≡ goal) (not s.enabled || not s.device_online) _ _
        (λ t. absurd (ground (arith, en, on)))
        (λ _.
          if_ind (λ (q : Bool × Device). q.1 ≡ goal)
            (ltb spi_buf_size (length s.buf + (pkt.size + pkt.data_len))) (false, s0) (true, goal)
            (λ t. absurd (ground (arith, none))) (λ _. refl))

  fill_flags :
      s.enabled ≡ true
      → s.device_online ≡ true
      → s.buf ≡ []
      → s.buf_pos ≡ 0
      → (s.hw_vsync ≡ false) ⊎ (s.dirty ≡ false)
      → flags_byte s.display_flags ≢ s.last_sent_flags
      → fill_buffer (record s { vsync = 0 }) ≡ queued
  unfolding fill_buffer queue_flags buf_is_empty
  fill_flags en on empty start quiet changed =
      let s0 = record s { vsync = 0 } in
      let none : length s.buf ≡ 0 = ap length empty in
      let test : (leb (length s.buf) s.buf_pos
            && not (flags_byte s.display_flags == s.last_sent_flags))
          ≡ true =
        ground (arith, none, changed) in
      ap queue_flags (no_frame quiet)
      ∙ ap (λ (b : Bool). if b then (buf_emit pkt s0).1 else s0) test
      ∙ flags_queued en on empty
      ∙ (λ i. record s { vsync = 0; buf = empty i ++ flags_bytes s; buf_pos = start i })

  queued_sends :
      (ready : Bool) (env : ℕ → ChunkEnv)
      → s.device_online ≡ true
      → FlagsEnd ready env s (send_buffer ready env queued)
  unfolding send_buffer buf_reset buf_is_empty
  queued_sends ready env on =
      if_ind (FlagsEnd ready env s) (buf_is_empty queued || not s.device_online || not ready) _ _
        (λ t.
          let low : ready ≡ false = ground (arith, some_bytes, on) in
          flags_lost [] (flags_bytes s) (inl low) refl some_bytes (sym (append-nil s.spi_bytes))
            refl refl refl)
        (λ _.
          end_send ready env (send_chunks (buf_len queued) env queued)
            (send_chunks-Sending (buf_len queued) env queued (omega arith) (omega arith)))

-- When an enabled device that is online is woken with flags that differ from those last sent, and there
-- is no frame to encode, since the vsync is not the hardware's or nothing is dirty: either all bytes of
-- the flags packet go out, the flags count as sent, and reference and candidate change places, although
-- no frame went out and the comment in kmod/sender.c says that the reference is what the display has; or
-- READY is low or does not come, or a transfer is refused, only a part of the packet goes out, with at
-- least one byte left, and flags, reference and candidate stay.
pub drainer_round-FlagsEnd :
    (ready : Bool) (env : ℕ → ChunkEnv) (s : Device)
    → s.enabled ≡ true
    → s.device_online ≡ true
    → s.buf ≡ []
    → s.buf_pos ≡ 0
    → (s.hw_vsync ≡ false) ⊎ (s.dirty ≡ false)
    → flags_byte s.display_flags ≢ s.last_sent_flags
    → FlagsEnd ready env s (drainer_round ready env s)
unfolding drainer_round
drainer_round-FlagsEnd ready env s en on empty start quiet changed =
    subst (λ (x : Device). FlagsEnd ready env s (send_buffer ready env x))
      (sym (fill_flags s en on empty start quiet changed)) (queued_sends s ready env on)
