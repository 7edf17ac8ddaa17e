-- ===== src/Driver/Frame.antt =====
-- `encode_frame` of kmod/sender.c: the frame at hand, encoded into the send buffer.
pub mod Packets
pub mod Correct
pub mod Skipped
use p4_hmd.Base.{ℕ, Bool, true, false, not, if◌then◌else◌}
use p4_hmd.Update.Encoder.{fb_size}
use p4_hmd.Driver.State.{Device}
use p4_hmd.Driver.Buffer.{buf_is_empty, buf_reset, p4_send_diff, p4_send_clear}

-- From `if (do_full)` up to the encoded buffer: the reference is zeroed and a clear packet is sent
-- before a full refresh. The result says whether the encoding succeeded.
unfoldable pub encode_with : Bool → Device → Bool × Device
encode_with do_full s =
    let (cleared, s1) =
      (if do_full then p4_send_clear (record s { dst_buf_2 = λ _. 0 }) else (true, s)) in
    if cleared
    then p4_send_diff s1 s1.dst_buf_2 s1.dst_buf_1 0 fb_size (not do_full)
    else (false, s1)

unfoldable pub encode_buffers : Device → Bool × Device
encode_buffers s = encode_with s.force_full s

-- From the check of `ok` on; `fail` resets the buffer.
unfoldable pub finish_frame : Bool × Device → Bool × Device
finish_frame (false, s) = (false, buf_reset s)
finish_frame (true, s) =
    if buf_is_empty s
    then (false, record s { dirty = false })
    else (true, record s { dirty = false; force_full = false })

-- The frame at hand, copied, and an empty buffer.
unfoldable pub start_frame : Device → Device
start_frame s = buf_reset (record s { dst_buf_1 = s.dst_buf_0 })

unfoldable pub encode_frame : Device → Bool × Device
encode_frame s =
    if not s.device_online
    then (false, s)
    else (if not s.dirty then (false, s) else finish_frame (encode_buffers (start_frame s)))
