-- ===== src/Update/Encoder/Draws.antt =====
-- What the packets of one region do to the memory of the display.
use p4_hmd.Base.{ℕ, ◌+◌, ◌-◌, ◌^◌, ◌≤◌, ◌<◌, ◌≡◌, refl, ◌∙◌, ap, arith, u16}
use p4_hmd.Base.{Bool, true, false, List, [], ◌∷◌, if◌then◌else◌}
use p4_hmd.Update.Word.{Buffer}
use p4_hmd.Update.Rle.{Run}
use p4_hmd.Update.Rle.Runs.{Partition, IsRun}
use p4_hmd.Update.Packet.{
  PacketHeader, pkt_init_data, pkt_addr, pkt_len, pkt_is_rle, pkt_is_bitrev, pkt_is_flags_only,
}
use p4_hmd.Update.Packet.Wire.{
  DataFields, pkt_init_data-DataFields, DataFields-addr, DataFields-len,
}
use p4_hmd.Update.Display.{between, shown, draw, draw_all}
use p4_hmd.Update.Encoder.{EncoderState, packet, fb_size, rle_min_run}
use p4_hmd.Update.Encoder.Sends.{after_packet, run_packets}

module _ (enc : EncoderState) (rle : Bool) (bytes : Buffer) (len : ℕ) where
  abbrev this : PacketHeader
  this = packet enc rle bytes len

  -- A packet of the encoder reads back as it was built.
  pub record IsPacket : Type 0 where
    pub fields : DataFields this enc.addr len
    pub addr : pkt_addr this ≡ enc.addr
    pub len_back : pkt_len this ≡ len
    pub is_rle : pkt_is_rle this ≡ rle
    pub is_bitrev : pkt_is_bitrev this ≡ enc.bitrev
    pub is_data : pkt_is_flags_only this ≡ false

  pub packet-IsPacket : enc.addr < 2 ^ 15 → len < 2 ^ 15 → IsPacket
  unfolding packet pkt_is_rle pkt_is_bitrev pkt_is_flags_only pkt_init_data
  packet-IsPacket ha hl =
      let d = pkt_init_data-DataFields enc.flags enc.new_frame rle enc.bitrev enc.addr len ha hl in
      let f : DataFields this enc.addr len = record {
        addr_hi = d.addr_hi;
        addr_lo = d.addr_lo;
        len_lo = d.len_lo;
        len_hi = d.len_hi;
      } in
      record {
        fields = f;
        addr = DataFields-addr this enc.addr len ha f;
        len_back = DataFields-len this enc.addr len hl f;
        is_rle = ground arith;
        is_bitrev = ground arith;
        is_data = refl;
      }

  draw-packet :
      (scr : Buffer) (i : ℕ)
      → enc.addr < 2 ^ 15
      → len < 2 ^ 15
      → draw this scr i ≡ (
          if between enc.addr (enc.addr + len) i
          then shown enc.bitrev (bytes (if rle then 0 else i - enc.addr))
          else scr i)
  unfolding draw
  draw-packet scr i ha hl =
      let p = packet-IsPacket ha hl in
      rw (p.addr, p.len_back, p.is_rle, p.is_bitrev) (unfold packet in refl)

pub Partition-le : (buf : Buffer) (m a b : ℕ) (rs : List Run) → Partition buf m a b rs → a ≤ b
Partition-le buf m a b [] h = omega arith
Partition-le buf m a b (r ∷ rs) (e, p, h) = omega (arith, Partition-le buf m (a + r.len) b rs h)

-- One packet, then the rest of the region.
two_parts :
    (a b c i v x z : ℕ)
    → a ≤ b
    → b ≤ c
    → (between a b i ≡ true → x ≡ v)
    → (if between b c i then v else (if between a b i then x else z))
      ≡ (if between a c i then v else z)
two_parts a b c i v x z h k e = ground (arith, e)

run_byte :
    (buf : Buffer) (base a i : ℕ) (r : Run)
    → r.offset ≡ a
    → IsRun buf rle_min_run r
    → between (base + a) (base + (a + r.len)) i ≡ true
    → r.bytes (if r.is_rle then 0 else i - (base + a)) ≡ buf (i - base)
run_byte buf base a i r off isrun t =
    let low : base + a ≤ i = ground arith in
    let high : i < base + (a + r.len) = ground arith in
    let e : a + (i - (base + a)) ≡ i - base = omega arith in
    isrun.faithful (i - (base + a)) (omega arith) ∙ ap buf (rw off e)

pub run_packets-draw :
    (buf : Buffer) (base a b : ℕ) (enc : EncoderState) (rs : List Run) (scr : Buffer) (i : ℕ)
    → Partition buf rle_min_run a b rs
    → enc.addr ≡ base + a
    → base + b ≤ fb_size
    → draw_all (run_packets enc rs) scr i
      ≡ (if between (base + a) (base + b) i then shown enc.bitrev (buf (i - base)) else scr i)
unfolding run_packets
run_packets-draw buf base a b enc [] scr i h ea fits =
    let e : between (base + a) (base + b) i ≡ false = ground arith in rw e
run_packets-draw buf base a b enc (r ∷ rs) scr i (off, isrun, rest) ea fits =
    let le = Partition-le buf rle_min_run (a + r.len) b rs rest in
    let n : u16 r.len ≡ r.len = omega arith in
    let p = packet enc r.is_rle r.bytes (u16 r.len) in
    let enc' = after_packet enc (u16 r.len) in
    let ih =
      run_packets-draw buf base (a + r.len) b enc' rs (draw p scr) i rest (omega arith) fits in
    let d = draw-packet enc r.is_rle r.bytes (u16 r.len) scr i (omega arith) (omega arith) in
    let first : enc.addr + u16 r.len ≡ base + (a + r.len) = omega arith in
    let same : between (base + a) (base + (a + r.len)) i ≡ true
        → shown enc.bitrev (r.bytes (if r.is_rle then 0 else i - (base + a)))
          ≡ shown enc.bitrev (buf (i - base)) =
      λ t. ap (shown enc.bitrev) (run_byte buf base a i r off isrun t) in
    ih
    ∙ rw (d, first, ea)
        (two_parts (base + a) (base + (a + r.len)) (base + b) i _ _ _ (omega arith) (omega arith)
          same)
