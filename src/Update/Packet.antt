-- ===== src/Update/Packet.antt =====
-- The packets of kmod/update.h: `struct cmd_byte`, `struct packet_header`, their initialisers and
-- accessors. The union's variants share their bytes, so the wire part is the six bytes of a data
-- packet, of which the first `size` are sent.
pub mod Wire
use p4_hmd.Base.{
  ℕ, zero, suc, ◌+◌, ◌-◌, ◌*◌, ◌/◌, ◌%◌, ◌^◌, u8, u16, ◌<<<◌, ◌>>>◌, Bool, true, false,
}
use p4_hmd.Base.{List, [], ◌∷◌, bit_and, bit_or, not, ◌==◌, if◌then◌else◌}
use p4_hmd.Update.Word.{Buffer}

-- `struct cmd_byte`, whose fields are laid out from the least significant bit on.
pub record CmdByte : Type 0 where
  pub one : ℕ
  pub cmd_len : ℕ
  pub reserved : ℕ
  pub bitrev : ℕ
  pub new_frame : ℕ
  pub rle : ℕ

-- `union cmd_byte_u`, read as a byte.
unfoldable pub cmd_value : CmdByte → ℕ
cmd_value c =
    c.one + c.cmd_len * 2 + c.reserved * 8 + c.bitrev * 32 + c.new_frame * 64 + c.rle * 128

abbrev pub cmd_len_flags_only : ℕ
cmd_len_flags_only = 1

abbrev pub cmd_len_data : ℕ
cmd_len_data = 3

abbrev pub hdr_size_flags_only : ℕ
hdr_size_flags_only = 2

abbrev pub hdr_size_data : ℕ
hdr_size_data = 6

pub record PacketHeader : Type 0 where
  pub size : ℕ
  pub data_len : ℕ
  pub payload : Buffer
  pub cmd : CmdByte
  pub flags : ℕ
  pub addr_hi : ℕ
  pub addr_lo : ℕ
  pub len_lo : ℕ
  pub len_hi : ℕ

abbrev pub flag_bit : Bool → ℕ
flag_bit b = if b then 1 else 0

unfoldable pub pkt_init_flags_only : ℕ → PacketHeader
pkt_init_flags_only display_flags = record {
  size = hdr_size_flags_only;
  data_len = 0;
  payload = λ _. 0;
  cmd = record {
    one = 1;
    cmd_len = cmd_len_flags_only;
    reserved = 0;
    bitrev = 0;
    new_frame = 0;
    rle = 0;
  };
  flags = display_flags;
  addr_hi = 0;
  addr_lo = 0;
  len_lo = 0;
  len_hi = 0;
}

unfoldable pub pkt_init_data : ℕ → Bool → Bool → Bool → ℕ → ℕ → PacketHeader
pkt_init_data display_flags new_frame is_rle bitrev addr len =
    let wire_len = u16 (len <<< 1) in
    record {
      size = hdr_size_data;
      data_len = 0;
      payload = λ _. 0;
      cmd = record {
        one = 1;
        cmd_len = cmd_len_data;
        reserved = 0;
        bitrev = flag_bit bitrev;
        new_frame = flag_bit new_frame;
        rle = flag_bit is_rle;
      };
      flags = display_flags;
      addr_hi = bit_and (addr >>> 8) 0x7f;
      addr_lo = bit_and addr 0xff;
      len_lo = bit_and wire_len 0xff;
      len_hi = bit_and (wire_len >>> 8) 0xff;
    }

-- The accessors.
unfoldable pub pkt_addr : PacketHeader → ℕ
pkt_addr p = bit_or (u16 (bit_and p.addr_hi 0x7f <<< 8)) p.addr_lo

unfoldable pub pkt_len : PacketHeader → ℕ
pkt_len p = bit_or p.len_lo (u16 (p.len_hi <<< 8)) >>> 1

unfoldable pub pkt_is_flags_only : PacketHeader → Bool
pkt_is_flags_only p = p.cmd.cmd_len == cmd_len_flags_only

unfoldable pub pkt_is_data : PacketHeader → Bool
pkt_is_data p = p.cmd.cmd_len == cmd_len_data

unfoldable pub pkt_is_rle : PacketHeader → Bool
pkt_is_rle p = not (p.cmd.rle == 0)

unfoldable pub pkt_is_new_frame : PacketHeader → Bool
pkt_is_new_frame p = not (p.cmd.new_frame == 0)

unfoldable pub pkt_is_bitrev : PacketHeader → Bool
pkt_is_bitrev p = not (p.cmd.bitrev == 0)

-- The first `n` bytes of a buffer.
unfoldable pub read_bytes : ℕ → Buffer → List ℕ
read_bytes zero f = []
read_bytes (suc n) f = f 0 ∷ read_bytes n (λ j. f (suc j))

-- The bytes at `pkt_wire`.
abbrev pub wire_byte : PacketHeader → Buffer
wire_byte p zero = cmd_value p.cmd
wire_byte p (suc zero) = p.flags
wire_byte p (suc (suc zero)) = p.addr_hi
wire_byte p (suc (suc (suc zero))) = p.addr_lo
wire_byte p (suc (suc (suc (suc zero)))) = p.len_lo
wire_byte p (suc (suc (suc (suc (suc i))))) = p.len_hi

-- `BITREV8` of kmod/bitrev.h.
unfoldable pub bitrev8 : ℕ → ℕ
bitrev8 x0 =
    let x1 = u8 (bit_or (bit_and x0 0xaa >>> 1) (bit_and x0 0x55 <<< 1)) in
    let x2 = u8 (bit_or (bit_and x1 0xcc >>> 2) (bit_and x1 0x33 <<< 2)) in
    u8 (bit_or (bit_and x2 0xf0 >>> 4) (bit_and x2 0x0f <<< 4))
