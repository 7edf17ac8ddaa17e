-- ===== src/Tools/Spi.antt =====
-- How kmod/p4_calibrate.c sends bytes: wait_ready_edge, spi_send_bytes_timed and what stands on them.
-- What the system calls answer is a record of functions of the number of calls made so far.
pub mod Sent
use p4_hmd.Base.{ℕ, zero, suc, ◌+◌, ◌*◌, ◌-◌, Bool, true, false, ◌&&◌, ltb, leb, ◌==◌, min}
use p4_hmd.Base.{if◌then◌else◌, List, [], ◌∷◌, ◌++◌, length, take, drop, Option, none, some}
use p4_hmd.Update.Word.{Buffer}
use p4_hmd.Update.Packet.{PacketHeader, pkt_init_data, pkt_init_flags_only}
use p4_hmd.Update.Encoder.{encoder_init, encode_region, fb_size}
use p4_hmd.Driver.Buffer.{packet_bytes}
use p4_hmd.Driver.Drainer.{spi_chunk_max}
use p4_hmd.Tools.Calibrate.{FrameBuffer, frame_buffer_used}

-- What `poll` returns: -1, 0, or that there is an event.
pub data Polled : Type 0 where
  failed timed_out event : Polled

-- `line_value n`: what the `ioctl` for the line gives as call `n`, none if it fails. `pending n`: the
-- events that wait in the queue at call `n`. `poll n`: what a waiting `poll` returns. `read_ok n`: that a
-- `read` gives a whole event. `transfer_ok n`: that the `ioctl` for a transfer succeeds. `malloc_ok n`:
-- that call `n` of `malloc`, counted with the others, gives memory.
pub record Calls : Type 0 where
  pub line_value : ℕ → Option ℕ
  pub pending : ℕ → ℕ
  pub poll : ℕ → Polled
  pub read_ok : ℕ → Bool
  pub transfer_ok : ℕ → Bool
  pub malloc_ok : ℕ → Bool

-- What the tool saw and did at the pins: READY high or rising, or a chunk transferred.
pub data Event : Type 0 where
  saw_ready : Event
  transferred : List ℕ → Event

-- `calls` counts system calls; `ready_samples` are the fields `bytes_sent` of the array, in its order.
pub record Line : Type 0 where
  pub calls : ℕ
  pub events : List Event
  pub ready_samples : List ℕ

abbrev pub called : Line → Line
called s = record s { calls = suc s.calls }

abbrev pub log : Event → Line → Line
log e s = record s { events = s.events ++ (e ∷ []) }

-- `data.values[0] == 1`, if the call succeeds
abbrev pub is_high : Option ℕ → Bool
is_high (some v) = v == 1
is_high none = false

-- The packets of `fill_raw` and `fill_rle`.
unfoldable pub raw_packet : Bool → ℕ → PacketHeader
raw_packet bitrev fill_byte = record (pkt_init_data 0 true false bitrev 0 fb_size) {
  payload = λ _. fill_byte;
  data_len = fb_size;
}

unfoldable pub rle_packet : Bool → ℕ → PacketHeader
rle_packet bitrev fill_byte = record (pkt_init_data 0 true true bitrev 0 fb_size) {
  payload = λ _. fill_byte;
  data_len = 1;
}

abbrev pub max_ready_samples : ℕ
max_ready_samples = 2048

-- `total` is what `bytes_at_wait` points at, or 0 without it.
unfoldable pub record_sample : ℕ → Line → Line
record_sample bytes_sent s =
    if ltb (length s.ready_samples) max_ready_samples
    then record s { ready_samples = s.ready_samples ++ (bytes_sent ∷ []) }
    else s

module _ (os : Calls) where
  -- The loop that drains `left` pending events, and stops early if one cannot be read.
  unfoldable pub drain_events : ℕ → Line → Line
  drain_events zero s = called s
  drain_events (suc left) s =
      let rest = drain_events left (called (called s)) in
      if os.read_ok (suc s.calls) then rest else called (called s)

  -- The event of a rising edge, if `poll` gives one and it can be read.
  abbrev pub edge_read : Polled → Line → Bool × Line
  edge_read failed s = (false, s)
  edge_read timed_out s = (false, s)
  edge_read event s =
      if os.read_ok s.calls then (true, log saw_ready (called s)) else (false, called s)

  unfoldable pub wait_ready_edge : Line → Bool × Line
  wait_ready_edge s =
      let s1 = called s in
      let s2 = drain_events (os.pending s1.calls) s1 in
      if is_high (os.line_value s.calls)
      then (true, log saw_ready s1)
      else edge_read (os.poll s2.calls) (called s2)

  -- READY before a chunk: the level, or else a wait. Gives whether it came, whether it was waited for,
  -- and the state.
  unfoldable pub recheck_ready : ℕ → ℕ → Option ℕ → Line → Bool × Bool × Line
  recheck_ready total offset none s = (false, false, s)
  recheck_ready total offset (some v) s =
      let (came, s') = wait_ready_edge s in
      if v == 1
      then (true, false, log saw_ready s)
      else (came, true, (if came then record_sample (total + offset) s' else s'))

  -- The loop, for at most `fuel` chunks, from `offset` on; the result counts the waits for READY.
  unfoldable pub send_from : ℕ → List ℕ → ℕ → ℕ → ℕ → Line → Option ℕ × Line
  send_from zero bytes total offset waits s = (some waits, s)
  send_from (suc fuel) bytes total offset waits s =
      let chunk = min spi_chunk_max (length bytes - offset) in
      let (came, waited, s1) = recheck_ready total offset (os.line_value s.calls) (called s) in
      let s2 = log (transferred (take chunk (drop offset bytes))) (called s1) in
      let waits' = if waited then suc waits else waits in
      let rest = send_from fuel bytes total (offset + chunk) waits' s2 in
      if ltb offset (length bytes)
      then (if came
          then (if os.transfer_ok s1.calls then rest else (none, called s1))
          else (none, s1))
      else (some waits, s)

  unfoldable pub spi_send_bytes_timed : List ℕ → ℕ → Line → Option ℕ × Line
  spi_send_bytes_timed bytes total s =
      let (came, s1) = wait_ready_edge s in
      if came then send_from (length bytes) bytes total 0 1 (record_sample total s1) else (none, s1)

  unfoldable pub spi_send_bytes_timeout : List ℕ → Line → Option ℕ × Line
  spi_send_bytes_timeout bytes s = spi_send_bytes_timed bytes 0 s

  -- Whether a packet went out, by what sending its bytes gave.
  abbrev pub emitted : Option ℕ → ℕ × Line → Bool × (ℕ × Line)
  emitted (some _) (packet_count, s) = (true, (suc packet_count, s))
  emitted none cs = (false, cs)

  -- A packet above 16 bytes is put together in memory of its own.
  unfoldable pub emit_packet_spi : PacketHeader → ℕ × Line → Bool × (ℕ × Line)
  emit_packet_spi pkt (packet_count, s) =
      let total_len = pkt.size + pkt.data_len in
      let (waits, s') = spi_send_bytes_timeout (packet_bytes pkt) s in
      let (waits', s'') = spi_send_bytes_timeout (packet_bytes pkt) (called s) in
      if leb total_len 16
      then emitted waits (packet_count, s')
      else (if os.malloc_ok s.calls
          then emitted waits' (packet_count, s'')
          else (false, (packet_count, called s)))

  -- The packet count, or none for -1.
  unfoldable pub fill_region : Bool → ℕ → ℕ → ℕ → Bool → Line → Option ℕ × Line
  fill_region bitrev addr len fill_byte new_frame s =
      let enc = encoder_init 0 new_frame bitrev in
      let (ok, (enc', (packets, s'))) =
        encode_region emit_packet_spi (enc, (0, called s)) addr (λ _. fill_byte) len in
      if os.malloc_ok s.calls then ((if ok then some packets else none), s') else (none, called s)

  -- Whether they return 0.
  unfoldable pub fill_raw : Bool → ℕ → Line → Bool × Line
  fill_raw bitrev fill_byte s =
      let (ok, (packets, s')) = emit_packet_spi (raw_packet bitrev fill_byte) (0, called s) in
      if os.malloc_ok s.calls then (ok, s') else (false, called s)

  unfoldable pub fill_rle : Bool → ℕ → Line → Bool × Line
  fill_rle bitrev fill_byte s =
      let (ok, (packets, s')) = emit_packet_spi (rle_packet bitrev fill_byte) (0, s) in (ok, s')

  unfoldable pub send_display_flags : ℕ → Line → Bool × Line
  send_display_flags flags s =
      let (ok, (packets, s')) = emit_packet_spi (pkt_init_flags_only flags) (0, s) in (ok, s')

  -- The waits for READY, or none for -1, the buffer after it, and `cumulative_bytes_sent`.
  unfoldable pub send_frame_buffer_timed :
      FrameBuffer → ℕ → Line → Option ℕ × FrameBuffer × ℕ × Line
  send_frame_buffer_timed f cumulative_bytes_sent s =
      let (waits, s') = spi_send_bytes_timed f.bytes cumulative_bytes_sent s in
      let sum : ℕ = elim waits [
        | some _ ↦ cumulative_bytes_sent + frame_buffer_used f
        | none ↦ cumulative_bytes_sent
      ] in
      if frame_buffer_used f == 0
      then (some 0, f, cumulative_bytes_sent, s)
      else (waits, record f { bytes = [] }, sum, s')

  unfoldable pub send_frame_buffer : FrameBuffer → Line → Option ℕ × FrameBuffer × Line
  send_frame_buffer f s =
      let (waits, s') = spi_send_bytes_timeout f.bytes s in
      if frame_buffer_used f == 0 then (some 0, f, s) else (waits, record f { bytes = [] }, s')
