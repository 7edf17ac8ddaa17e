-- ===== src/Driver/Buffer/Laws.antt =====
-- What `buf_emit` accepts, and what a sequence of accepted packets leaves in the send buffer.
use p4_hmd.Base.{ℕ, ◌+◌, ◌≡◌, ◌≤◌, refl, sym, ◌∙◌, ap, arith, Bool, true, false, not}
use p4_hmd.Base.{List, [], ◌∷◌, ◌++◌, length, length-append, ltb, ◌||◌, ◌&&◌, if◌then◌else◌}
use p4_hmd.Base.{append-nil, append_assoc, subst, feed, All, Bool-cases, inl, inr}
use p4_hmd.Update.Packet.{PacketHeader, pkt_is_flags_only, pkt_addr, pkt_len, read_bytes, wire_byte}
use p4_hmd.Update.Receiver.{length-read_bytes}
use p4_hmd.Update.Encoder.{fb_size}
use p4_hmd.Driver.State.{Device, buf_len}
use p4_hmd.Driver.Buffer.{spi_buf_size, packet_bytes, buf_emit}

pub length-packet_bytes : (p : PacketHeader) → length (packet_bytes p) ≡ p.size + p.data_len
unfolding packet_bytes
length-packet_bytes p = rw (
  length-append (read_bytes p.size (wire_byte p)) (read_bytes p.data_len p.payload),
  length-read_bytes p.size (wire_byte p),
  length-read_bytes p.data_len p.payload,
)

-- The tests of `buf_emit`.
abbrev pub accepts : PacketHeader → Device → Bool
accepts p s =
    (pkt_is_flags_only p || not (ltb fb_size (pkt_addr p + pkt_len p)))
    && ((s.enabled && s.device_online)
        && not (ltb spi_buf_size (buf_len s + (p.size + p.data_len))))

abbrev pub with_bytes : Device → List ℕ → Device
with_bytes s bytes = record s { buf = s.buf ++ bytes }

pub buf_emit_lem :
    (p : PacketHeader) (s : Device)
    → buf_emit p s ≡ (if accepts p s then (true, with_bytes s (packet_bytes p)) else (false, s))
unfolding buf_emit
buf_emit_lem p s = ground arith

abbrev pub all_bytes : List PacketHeader → List ℕ
all_bytes [] = []
all_bytes (p ∷ ps) = packet_bytes p ++ all_bytes ps

pub all_bytes-append :
    (ps qs : List PacketHeader) → all_bytes (ps ++ qs) ≡ all_bytes ps ++ all_bytes qs
all_bytes-append [] qs = refl
all_bytes-append (p ∷ ps) qs =
    ap (λ xs. packet_bytes p ++ xs) (all_bytes-append ps qs)
    ∙ sym (append_assoc (packet_bytes p) (all_bytes ps) (all_bytes qs))

with_bytes_none : (s : Device) → with_bytes s [] ≡ s
with_bytes_none s = ap (λ (bs : List ℕ). record s { buf = bs }) (append-nil s.buf)

with_bytes_twice :
    (s : Device) (xs ys : List ℕ) → with_bytes (with_bytes s xs) ys ≡ with_bytes s (xs ++ ys)
with_bytes_twice s xs ys = ap (λ (bs : List ℕ). record s { buf = bs }) (append_assoc s.buf xs ys)

-- The state of the sender after packets were handed to the buffer from `s`.
pub record Queued (ps : List PacketHeader) (s : Device) (r : Bool × Device) : Type 0 where
  pub bytes : List ℕ
  pub after : r.1 ≡ with_bytes s bytes
  pub room : buf_len s ≤ spi_buf_size → length (s.buf ++ bytes) ≤ spi_buf_size
  pub all : r.0 ≡ true → bytes ≡ all_bytes ps

pub feed-buf_emit-Queued : (ps : List PacketHeader) (s : Device) → Queued ps s (feed buf_emit ps s)
feed-buf_emit-Queued [] s = record {
  bytes = [];
  after = sym (with_bytes_none s);
  room = λ h. omega (arith, length-append s.buf []);
  all = λ _. refl;
}
feed-buf_emit-Queued (p ∷ ps) s = elim (Bool-cases (accepts p s)) [
  | inl t ↦
      let s' = with_bytes s (packet_bytes p) in
      let room_left : buf_len s + (p.size + p.data_len) ≤ spi_buf_size = ground arith in
      let e : buf_emit p s ≡ (true, s') = buf_emit_lem p s ∙ rw t refl in
      let q = feed-buf_emit-Queued ps s' in
      rw e (record {
        bytes = packet_bytes p ++ q.bytes;
        after = q.after ∙ with_bytes_twice s (packet_bytes p) q.bytes;
        room = λ h.
            subst (λ (bs : List ℕ). length bs ≤ spi_buf_size)
              (append_assoc s.buf (packet_bytes p) q.bytes)
              (q.room (omega (arith, length-append s.buf (packet_bytes p), length-packet_bytes p)));
        all = λ c. ap (λ bs. packet_bytes p ++ bs) (q.all c);
      })
  | inr f ↦
      let e : buf_emit p s ≡ (false, s) = buf_emit_lem p s ∙ rw f refl in
      rw e (record {
        bytes = [];
        after = sym (with_bytes_none s);
        room = λ h. omega (arith, length-append s.buf []);
        all = λ c. cc;
      })
]

-- Packets in the framebuffer for which there is room are all accepted if the sender is enabled and
-- online.
pub feed-buf_emit-accepts :
    (ps : List PacketHeader) (s : Device)
    → All (λ q. pkt_addr q + pkt_len q ≤ fb_size) ps
    → s.enabled ≡ true
    → s.device_online ≡ true
    → buf_len s + length (all_bytes ps) ≤ spi_buf_size
    → feed buf_emit ps s ≡ (true, with_bytes s (all_bytes ps))
feed-buf_emit-accepts [] s h en on room = ap (λ x. (true, x)) (sym (with_bytes_none s))
feed-buf_emit-accepts (p ∷ ps) s h en on room =
    let s' = with_bytes s (packet_bytes p) in
    let lb = length-append (packet_bytes p) (all_bytes ps) in
    let lp = length-packet_bytes p in
    let t : accepts p s ≡ true = ground arith in
    let e : buf_emit p s ≡ (true, s') = buf_emit_lem p s ∙ rw t refl in
    rw e (
      feed-buf_emit-accepts ps s' h.1 en on (omega (arith, length-append s.buf (packet_bytes p)))
      ∙ ap (λ x. (true, x)) (with_bytes_twice s (packet_bytes p) (all_bytes ps)))
