-- ===== src/Tools/Stress.antt =====
-- The stress frames of kmod/p4_calibrate.c: stress_rand, stress_emit_packet and stress_generate_frame.
pub mod Regions
pub mod Places
pub mod Fits
pub mod Striped
pub mod Shown
use p4_hmd.Base.{ℕ, zero, suc, ◌+◌, ◌-◌, ◌*◌, ◌%◌, ◌>>>◌, bit_and, u16, ◌^◌, min}
use p4_hmd.Base.{Bool, true, false, not, ◌&&◌, ◌||◌, ◌==◌, ltb, leb, if◌then◌else◌, Option, none}
use p4_hmd.Update.Word.{Buffer}
use p4_hmd.Update.Packet.{PacketHeader}
use p4_hmd.Update.Encoder.{EncoderState, encoder_init, encode_region, fb_size}
use p4_hmd.Driver.Buffer.{packet_bytes}
use p4_hmd.Base.{◌++◌}
use p4_hmd.Tools.Calibrate.{FrameBuffer, frame_buffer_used, counted}

-- STRESS_OVERLAP, STRESS_NONOVERLAP and STRESS_LINES
pub data StressMode : Type 0 where
  overlap nonoverlap lines : StressMode

abbrev pub is_nonoverlap : StressMode → Bool
is_nonoverlap nonoverlap = true
is_nonoverlap _ = false

-- The options, and whether `malloc` gives memory in the round with `n` bytes to go.
pub record StressOptions : Type 0 where
  pub max_bytes : ℕ
  pub use_rle : Bool
  pub mode : StressMode
  pub bitrev : Bool
  pub buffer_size : ℕ
  pub malloc_ok : ℕ → Bool

-- The number and the next seed.
unfoldable pub stress_rand : ℕ → ℕ × ℕ
stress_rand seed =
    let next = (seed * 1103515245 + 12345) % 2 ^ 32 in (bit_and (next >>> 16) 0x7fff, next)

unfoldable pub stress_emit_packet : ℕ → PacketHeader → FrameBuffer → Bool × FrameBuffer
stress_emit_packet frame_buffer_size pkt f =
    let total = pkt.size + pkt.data_len in
    if ltb frame_buffer_size (frame_buffer_used f + total)
    then (false, f)
    else (true, record { bytes = f.bytes ++ packet_bytes pkt; packet_count = suc f.packet_count })

-- The encoder with its context, through which the frame's regions go.
abbrev pub Encoding : Type 0
Encoding = EncoderState × FrameBuffer

abbrev pub line_bytes : ℕ
line_bytes = 35

abbrev pub num_lines : ℕ
num_lines = 720

-- A line is white if its number is odd.
abbrev pub line_fill : ℕ → ℕ
line_fill line = if bit_and line 1 == 1 then 255 else 0

-- The loop over lines, with `left` to go. The count of bytes that remain may fall below 0 in the source,
-- which ends the loop as 0 does.
unfoldable pub stress_lines : ℕ → ℕ → ℕ → ℕ → Encoding → Bool × Encoding
stress_lines size zero line bytes_remaining e = (true, e)
stress_lines size (suc left) line bytes_remaining e =
    let (ok, e') =
      encode_region (stress_emit_packet size) e (u16 (line * line_bytes)) (λ _. line_fill line)
        line_bytes in
    let rest = stress_lines size left (line + 1) (bytes_remaining - line_bytes) e' in
    if ltb 0 bytes_remaining then (if ok then rest else (false, e')) else (true, e)

-- The first address from `addr` on, of the `left` to the end, that is not used.
unfoldable pub skip_used : ℕ → (ℕ → Bool) → ℕ → ℕ
skip_used zero used addr = addr
skip_used (suc left) used addr =
    let rest = skip_used left used (addr + 1) in if used addr then rest else addr

-- How many of `len` addresses from `addr` on lie in the frame and are not used.
unfoldable pub free_run : ℕ → (ℕ → Bool) → ℕ → ℕ
free_run zero used addr = 0
free_run (suc len) used addr =
    let rest = free_run len used (addr + 1) in
    if ltb addr fb_size && not (used addr) then suc rest else 0

abbrev pub mark_used : (ℕ → Bool) → ℕ → ℕ → ℕ → Bool
mark_used used addr len i = if leb addr i && ltb i (addr + len) then true else used i

-- The bytes from `i` on of `len` random ones, and the seed after them.
unfoldable pub random_data : ℕ → ℕ → ℕ → Buffer × ℕ
random_data zero i seed = (λ _. 0, seed)
random_data (suc len) i seed =
    let (x, seed1) = stress_rand seed in
    let (rest, seed2) = random_data len (i + 1) seed1 in
    (λ j. if j == i then bit_and x 255 else rest j, seed2)

-- The data of a region: one byte over and over, or random bytes.
unfoldable pub stress_data : Bool → ℕ → ℕ → Buffer × ℕ
stress_data use_rle len seed =
    let (x, seed1) = stress_rand seed in
    let (y, seed2) = stress_rand seed1 in
    let after = if use_rle then seed2 else seed1 in
    if use_rle && y % 3 == 0 then (λ _. bit_and x 255, after) else random_data len 0 after

-- The place of a region: the address and length that the random numbers give, before the search for an
-- unused place, and the seed after them.
unfoldable pub random_place : ℕ → ℕ → ℕ × ℕ × ℕ
random_place bytes_remaining seed =
    let (x, seed1) = stress_rand seed in
    let addr = x % fb_size in
    let max_len = min (min (fb_size - addr) 256) bytes_remaining in
    let (y, seed2) = stress_rand seed1 in (addr, y % max_len + 1, seed2)

-- The loop over random regions, for at most `fuel`, with the seed that it leaves. `max_len` is not 0 while bytes remain.
unfoldable pub stress_random :
    StressOptions → ℕ → (ℕ → Bool) → ℕ → ℕ → Encoding → (Bool × Encoding) × ℕ
stress_random o zero used bytes_remaining seed e = ((true, e), seed)
stress_random o (suc fuel) used bytes_remaining seed e =
    let (at, wanted, seed1) = random_place bytes_remaining seed in
    let addr = if is_nonoverlap o.mode then skip_used (fb_size - at) used at else at in
    let len = if is_nonoverlap o.mode then free_run wanted used addr else wanted in
    let used' = if is_nonoverlap o.mode then mark_used used addr len else used in
    let (bytes, seed2) = stress_data o.use_rle len seed1 in
    let (ok, e') = encode_region (stress_emit_packet o.buffer_size) e addr bytes len in
    let rest = stress_random o fuel used' (bytes_remaining - len) seed2 e' in
    if not (ltb 0 bytes_remaining)
    then ((true, e), seed)
    else (if is_nonoverlap o.mode && (leb fb_size addr || len == 0)
        then ((true, e), seed1)
        else (if not (o.malloc_ok bytes_remaining)
            then ((false, e), seed1)
            else (if ok then rest else ((false, e'), seed2))))

-- What the mode makes of the encoder.
abbrev pub stress_regions : StressMode → StressOptions → ℕ → Encoding → (Bool × Encoding) × ℕ
stress_regions lines o seed e = (stress_lines o.buffer_size num_lines 0 o.max_bytes e, seed)
stress_regions _ o seed e = stress_random o o.max_bytes (λ _. false) o.max_bytes seed e

-- The count of packets, or none for -1, and the seed for the next frame. `map_ok` says that the map of
-- used addresses could be allocated.
unfoldable pub stress_generate_frame :
    StressOptions → Bool → Bool → ℕ → FrameBuffer → (Option ℕ × FrameBuffer) × ℕ
stress_generate_frame o map_ok new_frame seed f =
    let start : FrameBuffer = record f { packet_count = 0 } in
    let ((ok, (enc', f')), seed') =
      stress_regions o.mode o seed (encoder_init 0 new_frame o.bitrev, start) in
    if is_nonoverlap o.mode && not map_ok then ((none, f), seed) else (counted ok f', seed')
