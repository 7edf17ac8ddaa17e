-- ===== src/Update/Encoder.antt =====
-- The packet encoder of kmod/update.c. The `emit` callback and its context are a function on the
-- state `S` of the context; the encoder's state goes through beside it.
pub mod Sends
pub mod Draws
pub mod Sound
pub mod Regions
pub mod Region
pub mod Correct
pub mod Same
use p4_hmd.Base.{ℕ, ◌+◌, ◌-◌, ◌*◌, ◌/◌, ◌^◌, u16, u64, Bool, true, false, ltb, ◌||◌}
use p4_hmd.Base.{if◌then◌else◌}
use p4_hmd.Update.Word.{Buffer, at}
use p4_hmd.Update.Diffs.{DiffCb, find_diffs}
use p4_hmd.Update.Rle.{RleCb, find_rle}
use p4_hmd.Update.Packet.{PacketHeader, pkt_init_data, hdr_size_data}

-- FB_SIZE of kmod/display.h: 280 / 8 bytes in each of 720 rows.
abbrev pub p4_width : ℕ
p4_width = 720

abbrev pub p4_height : ℕ
p4_height = 280

abbrev pub fb_size : ℕ
fb_size = p4_height / 8 * p4_width

abbrev pub rle_min_run : ℕ
rle_min_run = 8

pub record EncoderState : Type 0 where
  pub addr : ℕ
  pub flags : ℕ
  pub new_frame : Bool
  pub bitrev : Bool

unfoldable pub encoder_init : ℕ → Bool → Bool → EncoderState
encoder_init flags new_frame bitrev = record {
  addr = 0;
  flags = flags;
  new_frame = new_frame;
  bitrev = bitrev;
}

-- `packet_emit_fn`
abbrev pub EmitFn {ℓ} : Type ℓ → Type ℓ
EmitFn S = PacketHeader → S → Bool × S

-- The packet that `emit_packet` builds.
unfoldable pub packet : EncoderState → Bool → Buffer → ℕ → PacketHeader
packet enc rle bytes len =
    let pkt = pkt_init_data enc.flags enc.new_frame rle enc.bitrev enc.addr len in
    record pkt { payload = bytes; data_len = if rle then 1 else len }

module _ {ℓ} {S : Type ℓ} (emit : EmitFn S) where
  unfoldable pub emit_packet : Bool → Buffer → ℕ → EncoderState × S → Bool × (EncoderState × S)
  emit_packet rle bytes len (enc, s) =
      let (sent, s') = emit (packet enc rle bytes len) s in
      if sent
      then (true, (record enc { new_frame = false; addr = u16 (enc.addr + len) }, s'))
      else (false, (enc, s'))

  unfoldable pub rle_emit_cb : RleCb (EncoderState × S)
  rle_emit_cb r = emit_packet r.is_rle r.bytes (u16 r.len)

  unfoldable pub encode_region : EncoderState × S → ℕ → Buffer → ℕ → Bool × (EncoderState × S)
  encode_region (enc, s) addr buf len =
      if ltb fb_size (addr + len)
      then (false, (enc, s))
      else find_rle buf len rle_min_run rle_emit_cb (record enc { addr = addr }, s)

  -- `base` and `new_buf` are the fields of `struct diff_enc_ctx`.
  unfoldable pub diff_emit_cb : ℕ → Buffer → DiffCb (EncoderState × S)
  diff_emit_cb base new_buf start end es =
      let abs_start = base + start in
      let abs_end = base + end in
      let len = abs_end - abs_start in
      if ltb 0xffff abs_start || ltb fb_size abs_end || ltb fb_size (abs_start + len)
      then (false, es)
      else encode_region es (u16 abs_start) (at new_buf abs_start) len

  -- `x & ~7UL` is the multiple of 8 below `x`.
  unfoldable pub encode_diff :
      EncoderState × S → Buffer → Buffer → ℕ → ℕ → Bool × (EncoderState × S)
  encode_diff es old_buf new_buf scan_start scan_end =
      let first = scan_start / 8 * 8 in
      let last = u64 (scan_end + 7) / 8 * 8 in
      find_diffs (at old_buf first) (at new_buf first) (u64 (last + 2 ^ 64 - first)) hdr_size_data
        (diff_emit_cb first new_buf) es
