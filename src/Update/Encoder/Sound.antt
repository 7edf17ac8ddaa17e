-- ===== src/Update/Encoder/Sound.antt =====
-- The packets that the encoder emits lie in the framebuffer and describe themselves truly.
use p4_hmd.Base.{ℕ, ◌+◌, ◌/◌, ◌%◌, ◌≤◌, ◌≡◌, refl, arith, u16}
use p4_hmd.Base.{Bool, false, List, [], ◌∷◌, All, if◌then◌else◌}
use p4_hmd.Update.Word.{Buffer}
use p4_hmd.Update.Rle.{Run}
use p4_hmd.Update.Rle.Runs.{Partition}
use p4_hmd.Update.Packet.{
  PacketHeader, cmd_value, flag_bit, pkt_init_data, pkt_addr, pkt_len, pkt_is_rle, pkt_is_bitrev,
  pkt_is_flags_only, hdr_size_data,
}
use p4_hmd.Update.Packet.Wire.{DataFields}
use p4_hmd.Update.Encoder.{EncoderState, packet, fb_size, rle_min_run}
use p4_hmd.Update.Encoder.Sends.{after_packet, run_packets}
use p4_hmd.Update.Encoder.Draws.{packet-IsPacket, Partition-le}

pub record IsSound (p : PacketHeader) : Type 0 where
  pub fields : DataFields p (pkt_addr p) (pkt_len p)
  pub in_range : pkt_addr p + pkt_len p ≤ fb_size
  pub is_data : pkt_is_flags_only p ≡ false
  pub header : p.size ≡ hdr_size_data
  pub payload_len : p.data_len ≡ (if pkt_is_rle p then 1 else pkt_len p)
  pub type_bits : cmd_value p.cmd / 2 % 4 ≡ 3
  pub rle_bit : cmd_value p.cmd / 128 ≡ flag_bit (pkt_is_rle p)
  pub bitrev_bit : cmd_value p.cmd / 32 % 2 ≡ flag_bit (pkt_is_bitrev p)

pub packet-IsSound :
    (enc : EncoderState) (rle : Bool) (bytes : Buffer) (len : ℕ)
    → enc.addr + len ≤ fb_size
    → IsSound (packet enc rle bytes len)
packet-IsSound enc rle bytes len h =
    let p = packet-IsPacket enc rle bytes len (omega arith) (omega arith) in
    record {
      fields = rw (p.addr, p.len_back) p.fields;
      in_range = omega (arith, p.addr, p.len_back);
      is_data = p.is_data;
      header = unfold packet pkt_init_data in refl;
      payload_len = rw (p.len_back, p.is_rle) (unfold packet in refl);
      type_bits = unfold packet pkt_init_data cmd_value in ground arith;
      rle_bit = rw p.is_rle (unfold packet pkt_init_data cmd_value in ground arith);
      bitrev_bit = rw p.is_bitrev (unfold packet pkt_init_data cmd_value in ground arith);
    }

pub run_packets-IsSound :
    (buf : Buffer) (base a b : ℕ) (enc : EncoderState) (rs : List Run)
    → Partition buf rle_min_run a b rs
    → enc.addr ≡ base + a
    → base + b ≤ fb_size
    → All IsSound (run_packets enc rs)
unfolding run_packets
run_packets-IsSound buf base a b enc [] h ea fits = tt
run_packets-IsSound buf base a b enc (r ∷ rs) (off, isrun, rest) ea fits =
    let le = Partition-le buf rle_min_run (a + r.len) b rs rest in
    let n : u16 r.len ≡ r.len = omega arith in
    let enc' = after_packet enc (u16 r.len) in
    (
      packet-IsSound enc r.is_rle r.bytes (u16 r.len) (omega arith),
      run_packets-IsSound buf base (a + r.len) b enc' rs rest (omega arith) fits,
    )
