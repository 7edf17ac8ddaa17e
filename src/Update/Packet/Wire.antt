-- ===== src/Update/Packet/Wire.antt =====
-- What the accessors read from a packet that the initialisers built, and the bytes of its wire part.
use p4_hmd.Base.{ℕ, ◌*◌, ◌/◌, ◌%◌, ◌^◌, ◌<◌, ◌≡◌, refl, arith, Bool, true, false, bit_and}
use p4_hmd.Base.{u16, ◌<<<◌}
use p4_hmd.Base.Bits.{bit_and_0x7f, bit_and_0xff, bit_or_fields, bit_or_fields_low}
use p4_hmd.Update.Packet.{
  PacketHeader, cmd_value, flag_bit, pkt_init_data, pkt_addr, pkt_len, pkt_is_flags_only,
  pkt_is_data, pkt_is_rle, pkt_is_new_frame, pkt_is_bitrev, hdr_size_data,
}

-- The fields of a data packet, as numbers.
pub record DataFields (p : PacketHeader) (addr len : ℕ) : Type 0 where
  pub addr_hi : p.addr_hi ≡ addr / 256
  pub addr_lo : p.addr_lo ≡ addr % 256
  pub len_lo : p.len_lo ≡ len % 128 * 2
  pub len_hi : p.len_hi ≡ len / 128

pub pkt_init_data-DataFields :
    (flags : ℕ) (new_frame rle bitrev : Bool) (addr len : ℕ)
    → addr < 2 ^ 15
    → len < 2 ^ 15
    → DataFields (pkt_init_data flags new_frame rle bitrev addr len) addr len
unfolding pkt_init_data
pkt_init_data-DataFields flags new_frame rle bitrev addr len ha hl = record {
  addr_hi = omega (arith, bit_and_0x7f (addr / 256));
  addr_lo = omega (arith, bit_and_0xff addr);
  len_lo = ground (arith, bit_and_0xff (len * 2 % 2 ^ 16));
  len_hi = ground (arith, bit_and_0xff (len * 2 % 2 ^ 16 / 2 ^ 8));
}

pub DataFields-addr :
    (p : PacketHeader) (addr len : ℕ) → addr < 2 ^ 15 → DataFields p addr len → pkt_addr p ≡ addr
unfolding pkt_addr
DataFields-addr p addr len ha d =
    let m : bit_and p.addr_hi 0x7f ≡ addr / 256 =
      omega (arith, bit_and_0x7f (p.addr_hi), d.addr_hi) in
    let w : u16 (bit_and p.addr_hi 0x7f <<< 8) ≡ addr / 256 * 2 ^ 8 = omega arith in
    rw (w, d.addr_lo) (omega (arith, bit_or_fields 8 (addr / 256) (addr % 256) (omega arith)))

pub DataFields-len :
    (p : PacketHeader) (addr len : ℕ) → len < 2 ^ 15 → DataFields p addr len → pkt_len p ≡ len
unfolding pkt_len
DataFields-len p addr len hl d =
    let w : u16 (p.len_hi <<< 8) ≡ len / 128 * 2 ^ 8 = omega (arith, d.len_hi) in
    rw (w, d.len_lo) (omega (arith, bit_or_fields_low 8 (len / 128) (len % 128 * 2) (omega arith)))

-- The five flags of a command byte and the length of its header.
pub cmd_value_parts :
    (new_frame rle bitrev : Bool)
    → let v = cmd_value (pkt_init_data 0 new_frame rle bitrev 0 0).cmd in
      (v / 2 % 4 ≡ 3)
      × (v / 128 ≡ flag_bit rle)
      × (v / 32 % 2 ≡ flag_bit bitrev)
      × (v / 64 % 2 ≡ flag_bit new_frame)
unfolding cmd_value pkt_init_data
cmd_value_parts n r b = ground arith

-- A data packet reads back as it was built, for addresses and lengths of 15 bits: its type, the
-- address, the length, the flags and the three bits of the command byte.
pub pkt_init_data_roundtrip :
    (flags : ℕ) (new_frame rle bitrev : Bool) (addr len : ℕ)
    → addr < 2 ^ 15
    → len < 2 ^ 15
    → let p = pkt_init_data flags new_frame rle bitrev addr len in
      (pkt_addr p ≡ addr)
      × (pkt_len p ≡ len)
      × (p.flags ≡ flags)
      × (p.size ≡ hdr_size_data)
      × (pkt_is_data p ≡ true)
      × (pkt_is_flags_only p ≡ false)
      × (pkt_is_rle p ≡ rle)
      × (pkt_is_new_frame p ≡ new_frame)
      × (pkt_is_bitrev p ≡ bitrev)
unfolding pkt_init_data pkt_is_data pkt_is_flags_only pkt_is_rle pkt_is_new_frame pkt_is_bitrev
pkt_init_data_roundtrip flags new_frame rle bitrev addr len ha hl =
    let d = pkt_init_data-DataFields flags new_frame rle bitrev addr len ha hl in
    (
      DataFields-addr _ addr len ha d,
      DataFields-len _ addr len hl d,
      refl,
      refl,
      refl,
      refl,
      ground arith,
      ground arith,
      ground arith,
    )
