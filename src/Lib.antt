-- ===== src/Lib.antt =====
-- Verification of the P4 display driver (kmod): the encoder that turns a change of the framebuffer
-- into packets, the sender that queues and transfers them, what surrounds the sender, and the display
-- pipe that converts and rotates the pixels.
--
-- The parts, and where they stand:
--   * kmod/update.c, kmod/update.h, kmod/bitrev.h in Update: Word (loads of 64-bit words, LZB, TZB,
--     SPREAD), Diffs (find_diffs), Rle (find_rle), Packet (packet headers), Encoder (encode_diff
--     down to emit_packet). Update/Display and Update/Receiver are the other side, written from the
--     wire format in kmod/update.h: what the display draws for a packet, and how it reads bytes.
--   * kmod/sender.c in Driver: Power (display flags), Buffer (buf_emit, p4_send_diff,
--     p4_send_clear), Frame (encode_frame), Drainer (drainer_thread, a round at a time), Link (the
--     interrupts, works and resets), Lifecycle (probe to powerup).
--   * kmod/vblank.c in Driver/Vblank; kmod/dpms.c, kmod/sleep.c, kmod/backlight.c and the callbacks
--     of kmod/drm_p4_main.c that touch no pixels in Driver/Dpms.
--   * kmod/rotation_ops.h, kmod/rotation.c and kmod/rotate_neon.c in Rotation: Ops (8x8 blocks),
--     Scalar (rotate_ccw_scalar), Simd (rotate_ccw_neon, rotate_blocks).
--   * kmod/drm_p4_main.c and kmod/drm_boilerplate.h in Pipe: Clip (p4_process_clip), Update
--     (p4_update), Glass (from p4_update through encode_frame to the display), Connector (the
--     connector's callbacks, p4_atomic_check), Probe (p4_probe, p4_remove, p4_shutdown), Run (the
--     device from its probe on, with all that changes it in any order, and the invariant that it
--     keeps). p4_update draws into dst_buf_0, from which encode_frame of Driver/Frame takes the
--     frame; p4_probe starts the sender of Driver/Lifecycle.
--   * kmod/p4_calibrate.c in Tools: Patterns (generate_pattern), Calibrate (the frames that it encodes
--     into a buffer), Spi (spi_send_bytes_timed and what sends through it), PatternTest
--     (run_pattern_test), Speeds (find_max_speed), Handshake (test_cold_flag), Stress
--     (stress_generate_frame). kmod/p4_setmode.c in Tools/FillPattern (fill_pattern).
--   * Base holds shared names, Boolean tests, laws of the bit operations, and the calls of a
--     callback in order; Examples holds the theorems at concrete inputs.
--
-- State: Driver/State.antt has struct p4_device and struct p4_sender in one record, since each points
-- at the other. The bytes of the send buffer are a list, of which buf_len is the length. A
-- completion is the number of its pending signals. Buffers behind pointers are functions from an
-- index; the hypothesis IsBytes says that their values are below 256. Each function is one step, so
-- locks are not part of the state, a wait for READY is a part of the step with its answer, and the
-- start-up of the drainer's thread is a part of drainer_start. Pins, waits, transfers and jiffies are arguments; functions of the
-- kernel that the driver calls back into are function arguments.
--
-- Loops: a loop over words runs on the number of words left, which its theorems show to be enough;
-- the send loops run on the number of bytes in the buffer, since each of their rounds sends one at
-- least; the probing of clock speeds runs for 126 rounds, the number of steps of 1 MHz up to 125 MHz;
-- the random regions of a stress frame on the number of bytes to write, of which each takes one at
-- least. Numbers are natural; a C type that can wrap is written with a remainder.
--
-- The compiler's NEON intrinsics are the record Neon of Rotation/Simd.antt, and the kernel's conversion
-- to one bit per pixel is the record Mono of Pipe/Clip.antt: operations with laws on lanes and on
-- pixels, which Examples/Machine.antt meets by concrete functions. A pointer that the driver sets back
-- before its buffer, to read from its start on, is an index from which the offset is subtracted.
--
-- Not modelled: registration with the kernel and its tables of callbacks; of kmod/p4_calibrate.c the
-- echo test, the vblank measurement, the frame synchronisation test, the driver of the stress test,
-- replay of framebuffer dumps, files, times, messages and command line; of kmod/p4_setmode.c all but
-- fill_pattern, since it is calls of DRM; the tests (kmod/tests.c), the FPGA.
pub mod Base
pub mod Update
pub mod Rotation
pub mod Pipe
pub mod Tools
pub mod Driver
pub mod Examples
