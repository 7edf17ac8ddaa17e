-- ===== src/Driver/Drainer.antt =====
-- The drainer thread of kmod/sender.c: one round per vsync, which encodes the frame or the flags and
-- sends the buffer in chunks. What the pins, the waits and the transfers answer is an argument.
pub mod Sent
pub mod Shown
pub mod Flags
use p4_hmd.Base.{ℕ, zero, suc, ◌+◌, ◌-◌, Bool, true, false, not, ◌&&◌, ◌||◌, ◌==◌, ltb, min}
use p4_hmd.Base.{if◌then◌else◌, List, [], ◌++◌, take, drop}
use p4_hmd.Update.Packet.{pkt_init_flags_only}
use p4_hmd.Driver.State.{Device, Handshake, buf_len, flags_byte}
use p4_hmd.Driver.Buffer.{buf_is_empty, buf_reset, buf_emit}
use p4_hmd.Driver.Frame.{encode_frame}
use p4_hmd.Driver.Link.{hw_wait_ready}

abbrev pub spi_chunk_max : ℕ
spi_chunk_max = 4096

-- What a round of the send loop meets: the wait for READY, whether the transfer succeeds, and
-- whether the thread should stop.
pub record ChunkEnv : Type 0 where
  pub handshake : Handshake
  pub transfer_ok : Bool
  pub should_stop : Bool

-- How the send loop ends; `stopped` is the jump to `out`.
pub data SendResult : Type 0 where
  sent failed stopped : SendResult

unfoldable pub hw_spi_transfer : List ℕ → Bool → Device → Bool × Device
hw_spi_transfer bytes ok s = (ok, (if ok then record s { spi_bytes = s.spi_bytes ++ bytes } else s))

-- The state after a chunk was transferred.
unfoldable pub advance : ℕ → Device → Device
advance chunk s = record s { buf_pos = s.buf_pos + chunk }

-- The rest of a round of the send loop: whether READY came, whether to stop, whether the transfer
-- succeeded, the states after the wait and after the transfer, and what the rounds after it do.
abbrev pub after_chunk :
    Bool → Bool → Bool → Device → Device → SendResult × Device → SendResult × Device
after_chunk false true ok s1 s2 rest = (SendResult.stopped, s1)
after_chunk false false ok s1 s2 rest = (SendResult.failed, buf_reset s1)
after_chunk true stop false s1 s2 rest = (SendResult.failed, buf_reset s2)
after_chunk true stop true s1 s2 rest = rest

-- The send loop, for at most `fuel` chunks; chunk `k` meets `env k`.
unfoldable pub send_chunks : ℕ → (ℕ → ChunkEnv) → Device → SendResult × Device
send_chunks zero env s = (SendResult.sent, s)
send_chunks (suc fuel) env s =
    let chunk = min spi_chunk_max (buf_len s - s.buf_pos) in
    let (ready, s1) = hw_wait_ready (env 0).handshake s in
    let (ok, s2) = hw_spi_transfer (take chunk (drop s1.buf_pos s1.buf)) (env 0).transfer_ok s1 in
    let rest = send_chunks fuel (λ k. env (suc k)) (advance chunk s2) in
    if ltb s.buf_pos (buf_len s)
    then after_chunk ready (env 0).should_stop ok s1 s2 rest
    else (SendResult.sent, s)

-- The flags, if nothing else is to be sent and they have changed.
unfoldable pub queue_flags : Device → Device
queue_flags s =
    let current_flags = flags_byte s.display_flags in
    if buf_is_empty s && not (current_flags == s.last_sent_flags)
    then (buf_emit (pkt_init_flags_only current_flags) s).1
    else s

unfoldable pub swap_reference : Device → Device
swap_reference s = record s {
  dst_buf_1 = s.dst_buf_2;
  dst_buf_2 = s.dst_buf_1;
  last_sent_flags = flags_byte s.display_flags;
}

-- From the send loop to `next`; nothing follows if the thread stops.
unfoldable pub finish_send : SendResult × Device → Device
finish_send (SendResult.stopped, s) = s
finish_send (SendResult.failed, s) = record (buf_reset s) { send_done = suc s.send_done }
finish_send (SendResult.sent, s) =
    let s' = (if (s.buf_pos == buf_len s) && ltb 0 (buf_len s) then swap_reference s else s) in
    record (buf_reset s') { send_done = suc s'.send_done }

-- A round is given at most as many chunks as there are bytes.
unfoldable pub send_buffer : Bool → (ℕ → ChunkEnv) → Device → Device
send_buffer ready env s =
    if buf_is_empty s || not s.device_online || not ready
    then record (buf_reset s) { send_done = suc s.send_done }
    else finish_send (send_chunks (buf_len s) env s)

-- What the round puts into the buffer: a frame only on a hardware vsync.
unfoldable pub fill_buffer : Device → Device
fill_buffer s = queue_flags (if s.hw_vsync then (encode_frame s).1 else s)

-- One round of the drainer from its wake-up on; `ready` is the READY pin before the send loop.
unfoldable pub drainer_round : Bool → (ℕ → ChunkEnv) → Device → Device
drainer_round ready env s = send_buffer ready env (fill_buffer (record s { vsync = 0 }))

-- The drainer's start, up to its loop.
unfoldable pub drainer_thread : Bool → Device → Device
drainer_thread ready s = record s { device_online = ready; display_connected = ready }
