-- ===== src/Update/Receiver.antt =====
-- The display as a reader of bytes, by the description of the wire format in kmod/update.h: a command
-- byte that tells the form of the packet, the flags, and for data the address, the length with a 0
-- bit below it, and the payload. The state is the memory of the display and the flags last received.
use p4_hmd.Base.{ℕ, zero, suc, ◌+◌, ◌-◌, ◌*◌, ◌/◌, ◌%◌, ◌<◌, ◌≡◌, refl, sym, ap, arith}
use p4_hmd.Base.{fun_ext, Bool, true, false, List, [], ◌∷◌, ◌++◌, length, length-append, drop}
use p4_hmd.Base.{if_same, Option, none, some, if◌then◌else◌, leb, ◌==◌}
use p4_hmd.Update.Word.{Buffer}
use p4_hmd.Update.Packet.{PacketHeader, cmd_value, pkt_addr, pkt_len, pkt_is_rle, pkt_is_bitrev}
use p4_hmd.Update.Packet.{read_bytes, wire_byte, flag_bit, hdr_size_data}
use p4_hmd.Update.Display.{between, shown, draw}
use p4_hmd.Update.Encoder.Sound.{IsSound}

-- A list of bytes as a buffer, 0 past its end.
abbrev pub bytes_at : List ℕ → Buffer
bytes_at [] i = 0
bytes_at (x ∷ xs) zero = x
bytes_at (x ∷ xs) (suc i) = bytes_at xs i

-- Drawing `len` bytes, or the first of them `len` times, at `addr`.
abbrev pub paint : Bool → Bool → ℕ → ℕ → Buffer → Buffer → Buffer
paint rle bitrev addr len bytes scr i =
    if between addr (addr + len) i
    then shown bitrev (bytes (if rle then 0 else i - addr))
    else scr i

-- A data packet from its length bytes on, given its command byte and address; `more` reads the rest.
unfoldable pub receive_data :
    ℕ → ℕ → List ℕ → Buffer → (List ℕ → Buffer → Option (Buffer × ℕ)) → Option (Buffer × ℕ)
receive_data cmd addr (lo ∷ hi ∷ bytes) scr more =
    let len = (lo + hi * 256) / 2 in
    let rle = 1 == (cmd / 128) in
    let n = if rle then 1 else len in
    if leb n (length bytes)
    then more (drop n bytes) (paint rle (1 == (cmd / 32 % 2)) addr len (bytes_at bytes) scr)
    else none
receive_data cmd addr _ scr more = none

-- Reads at most `fuel` packets; none if bytes are left over or missing, or a command is unknown.
unfoldable pub receive : ℕ → List ℕ → Buffer × ℕ → Option (Buffer × ℕ)
receive fuel [] s = some s
receive zero _ s = none
receive (suc fuel) (cmd ∷ flags ∷ bytes) (scr, _) =
    if cmd / 2 % 4 == 1
    then receive fuel bytes (scr, flags)
    else (if cmd / 2 % 4 == 3
        then elim bytes [
          | hi ∷ lo ∷ rest ↦
              receive_data cmd (hi * 256 + lo) rest scr
                (λ left scr'. receive fuel left (scr', flags))
          | _ ↦ none
        ]
        else none)
receive (suc fuel) (cmd ∷ []) s = none

bytes_at-read_bytes :
    (n : ℕ) (f : Buffer) (rest : List ℕ) (i : ℕ) → i < n → bytes_at (read_bytes n f ++ rest) i ≡ f i
unfolding read_bytes
bytes_at-read_bytes zero f rest i h = absurd (omega arith)
bytes_at-read_bytes (suc n) f rest zero h = refl
bytes_at-read_bytes (suc n) f rest (suc i) h =
    bytes_at-read_bytes n (λ j. f (suc j)) rest i (omega arith)

drop-read_bytes : (n : ℕ) (f : Buffer) (rest : List ℕ) → drop n (read_bytes n f ++ rest) ≡ rest
unfolding read_bytes
drop-read_bytes zero f rest = refl
drop-read_bytes (suc n) f rest = drop-read_bytes n (λ j. f (suc j)) rest

pub length-read_bytes : (n : ℕ) (f : Buffer) → length (read_bytes n f) ≡ n
unfolding read_bytes
length-read_bytes zero f = refl
length-read_bytes (suc n) f = ap suc (length-read_bytes n (λ j. f (suc j)))

flag_bit_test : (b : Bool) (n : ℕ) → n ≡ flag_bit b → (1 == n) ≡ b
flag_bit_test true n h = ground arith
flag_bit_test false n h = ground arith

payload_index :
    (p : PacketHeader) (i : ℕ)
    → IsSound p
    → between (pkt_addr p) (pkt_addr p + pkt_len p) i ≡ true
    → (if pkt_is_rle p then 0 else i - pkt_addr p) < p.data_len
payload_index p i h t = ground (arith, h.payload_len)

-- Painting what a packet's payload bytes are is drawing the packet.
paint-draw :
    (p : PacketHeader) (rest : List ℕ) (scr : Buffer)
    → IsSound p
    → paint
        (pkt_is_rle p)
        (pkt_is_bitrev p)
        (pkt_addr p)
        (pkt_len p)
        (bytes_at (read_bytes p.data_len p.payload ++ rest))
        scr
      ≡ draw p scr
unfolding draw
paint-draw p rest scr h = fun_ext λ i.
    let n = p.data_len in
    let b = bytes_at-read_bytes n p.payload rest (if pkt_is_rle p then 0 else i - pkt_addr p) in
    if_same (between (pkt_addr p) (pkt_addr p + pkt_len p) i) _ _ _
      (λ t. ap (shown (pkt_is_bitrev p)) (b (payload_index p i h t)))

receive_data_sound :
    (p : PacketHeader) (rest : List ℕ) (scr : Buffer) (more : List ℕ → Buffer → Option (Buffer × ℕ))
    → IsSound p
    → receive_data
        (cmd_value p.cmd)
        (pkt_addr p)
        (p.len_lo ∷ p.len_hi ∷ (read_bytes p.data_len p.payload ++ rest))
        scr
        more
      ≡ more rest (draw p scr)
unfolding receive_data
receive_data_sound p rest scr more h =
    let d = h.fields in
    let len : (p.len_lo + p.len_hi * 256) / 2 ≡ pkt_len p = omega (arith, d.len_lo, d.len_hi) in
    let rle : (1 == (cmd_value p.cmd / 128)) ≡ pkt_is_rle p = flag_bit_test _ _ h.rle_bit in
    let rev : (1 == (cmd_value p.cmd / 32 % 2)) ≡ pkt_is_bitrev p =
      flag_bit_test _ _ h.bitrev_bit in
    let payload = read_bytes p.data_len p.payload in
    let n : (if pkt_is_rle p then 1 else pkt_len p) ≡ p.data_len = sym h.payload_len in
    let fits : leb p.data_len (length (payload ++ rest)) ≡ true =
      ground (arith, length-append payload rest, length-read_bytes p.data_len p.payload) in
    rw (len, rle, rev, n, fits, drop-read_bytes p.data_len p.payload rest, paint-draw p rest scr h)

wire_bytes-six :
    (p : PacketHeader)
    → p.size ≡ hdr_size_data
    → read_bytes p.size (wire_byte p)
      ≡ (cmd_value p.cmd ∷ p.flags ∷ p.addr_hi ∷ p.addr_lo ∷ p.len_lo ∷ p.len_hi ∷ [])
unfolding read_bytes
wire_bytes-six p h = rw h

-- Reading a sound packet draws it, takes its flags, and goes on behind it.
pub receive_sound :
    (fuel : ℕ) (p : PacketHeader) (rest : List ℕ) (scr : Buffer) (flags : ℕ)
    → IsSound p
    → receive
        (suc fuel)
        ((read_bytes p.size (wire_byte p) ++ read_bytes p.data_len p.payload) ++ rest)
        (scr, flags)
      ≡ receive fuel rest (draw p scr, p.flags)
unfolding receive
receive_sound fuel p rest scr flags h =
    let not_flags : (cmd_value p.cmd / 2 % 4 == 1) ≡ false = ground (arith, h.type_bits) in
    let is_data : (cmd_value p.cmd / 2 % 4 == 3) ≡ true = ground (arith, h.type_bits) in
    let addr : p.addr_hi * 256 + p.addr_lo ≡ pkt_addr p =
      omega (arith, h.fields.addr_hi, h.fields.addr_lo) in
    rw (wire_bytes-six p h.header, not_flags, is_data, addr) (receive_data_sound p rest scr _ h)
