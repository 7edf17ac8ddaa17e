-- ===== src/Update/Display.antt =====
-- What the display does with packets, by the description of the wire format in kmod/update.h: a data
-- packet writes its payload, or the one byte of it `len` times, from its address on, each byte
-- reversed if `bitrev` is set. The memory of the display is a buffer.
use p4_hmd.Base.{ℕ, ◌+◌, ◌-◌, ◌≡◌, refl, Bool, List, [], ◌∷◌, ◌++◌}
use p4_hmd.Base.{leb, ltb, ◌&&◌, if◌then◌else◌}
use p4_hmd.Update.Word.{Buffer}
use p4_hmd.Update.Packet.{PacketHeader, pkt_addr, pkt_len, pkt_is_rle, pkt_is_bitrev, bitrev8}

-- `a <= i && i < b`
abbrev pub between : ℕ → ℕ → ℕ → Bool
between a b i = leb a i && ltb i b

-- How a payload byte appears in the memory of the display.
unfoldable pub shown : Bool → ℕ → ℕ
shown bitrev x = if bitrev then bitrev8 x else x

unfoldable pub draw : PacketHeader → Buffer → Buffer
draw p scr i =
    if between (pkt_addr p) (pkt_addr p + pkt_len p) i
    then shown (pkt_is_bitrev p) (p.payload (if pkt_is_rle p then 0 else i - pkt_addr p))
    else scr i

abbrev pub draw_all : List PacketHeader → Buffer → Buffer
draw_all [] scr = scr
draw_all (p ∷ ps) scr = draw_all ps (draw p scr)

pub draw_all-append :
    (ps qs : List PacketHeader) (scr : Buffer)
    → draw_all (ps ++ qs) scr ≡ draw_all qs (draw_all ps scr)
draw_all-append [] qs scr = refl
draw_all-append (p ∷ ps) qs scr = draw_all-append ps qs (draw p scr)
