-- ===== src/Tools/Stress/Regions.antt =====
-- A list of regions, as the packets that `encode_region` makes of them.
use p4_hmd.Base.{ℕ, ◌+◌, ◌-◌, ◌≡◌, ◌≤◌, ◌<◌, refl, ◌∙◌, ap, subst, fun_ext}
use p4_hmd.Base.{Bool, true, false, List, [], ◌∷◌, ◌++◌, All, All-append, go_on, if◌then◌else◌}
use p4_hmd.Update.Word.{Buffer, IsBytes}
use p4_hmd.Update.Packet.{PacketHeader}
use p4_hmd.Update.Display.{between, shown, draw_all, draw_all-append}
use p4_hmd.Update.Encoder.{EncoderState, EmitFn, encode_region, fb_size}
use p4_hmd.Update.Encoder.Sends.{Sends, Sends-go_on}
use p4_hmd.Update.Encoder.Sound.{IsSound}
use p4_hmd.Update.Encoder.Region.{
  region_packets, after_region, after_region-bitrev, encode_region-Sends, region_packets-IsSound,
  region_packets-draw,
}

pub record Region : Type 0 where
  pub addr : ℕ
  pub len : ℕ
  pub bytes : Buffer

-- A region lies in the framebuffer, is neither empty nor too long, and has bytes.
pub record IsRegion (w : Region) : Type 0 where
  pub inside : w.addr + w.len ≤ fb_size
  pub some_bytes : 0 < w.len
  pub short : w.len ≤ 256
  pub is_bytes : IsBytes w.bytes

abbrev pub total : List Region → ℕ
total [] = 0
total (w ∷ ws) = w.len + total ws

abbrev pub packets_of : EncoderState → List Region → List PacketHeader
packets_of enc [] = []
packets_of enc (w ∷ ws) =
    region_packets enc w.addr w.bytes w.len ++ packets_of (after_region enc w.addr w.bytes w.len) ws

abbrev pub after_all : EncoderState → List Region → EncoderState
after_all enc [] = enc
after_all enc (w ∷ ws) = after_all (after_region enc w.addr w.bytes w.len) ws

-- The regions written over one another, in order.
abbrev pub paint_all : Bool → List Region → Buffer → Buffer
paint_all bitrev [] scr = scr
paint_all bitrev (w ∷ ws) scr =
    paint_all bitrev ws (λ i.
      if between w.addr (w.addr + w.len) i then shown bitrev (w.bytes (i - w.addr)) else scr i)

pub packets_of-IsSound :
    (enc : EncoderState) (ws : List Region) → All IsRegion ws → All IsSound (packets_of enc ws)
packets_of-IsSound enc [] h = tt
packets_of-IsSound enc (w ∷ ws) (h, hs) =
    All-append IsSound (region_packets enc w.addr w.bytes w.len) _
      (region_packets-IsSound enc w.addr w.bytes w.len h.is_bytes h.inside)
      (packets_of-IsSound (after_region enc w.addr w.bytes w.len) ws hs)

pub packets_of-draw :
    (enc : EncoderState) (ws : List Region) (scr : Buffer)
    → All IsRegion ws
    → draw_all (packets_of enc ws) scr ≡ paint_all enc.bitrev ws scr
packets_of-draw enc [] scr h = refl
packets_of-draw enc (w ∷ ws) scr (h, hs) =
    let enc' = after_region enc w.addr w.bytes w.len in
    let ps = region_packets enc w.addr w.bytes w.len in
    draw_all-append ps (packets_of enc' ws) scr
    ∙ packets_of-draw enc' ws (draw_all ps scr) hs
    ∙ ap (λ (b : Bool). paint_all b ws (draw_all ps scr))
        (after_region-bitrev enc w.addr w.bytes w.len)
    ∙ ap (paint_all enc.bitrev ws)
        (fun_ext λ i. region_packets-draw enc w.addr w.bytes w.len scr i h.is_bytes h.inside)

as_if {ℓ} :
    {S : Type ℓ} (r : Bool × S) (k : S → Bool × S)
    → go_on r k ≡ (if r.0 then k r.1 else (false, r.1))
as_if (true, s) k = refl
as_if (false, s) k = refl

-- One region and what follows it, in the form in which the loops go on.
pub region-Sends {ℓ} :
    {S : Type ℓ} (emit : EmitFn S) (s : S) (enc : EncoderState) (w : Region) (ws : List Region)
    (k : EncoderState × S → Bool × (EncoderState × S))
    → w.addr + w.len ≤ fb_size
    → ((t : S)
        → let enc' = after_region enc w.addr w.bytes w.len in
          Sends emit t (k (enc', t)) (packets_of enc' ws) (after_all enc' ws))
    → let r = encode_region emit (enc, s) w.addr w.bytes w.len in
      Sends emit s
        (if r.0 then k r.1 else (false, r.1))
        (packets_of enc (w ∷ ws))
        (after_all enc (w ∷ ws))
region-Sends emit s enc w ws k fits h =
    let r = encode_region emit (enc, s) w.addr w.bytes w.len in
    subst (λ q. Sends emit s q (packets_of enc (w ∷ ws)) (after_all enc (w ∷ ws))) (as_if r k)
      (Sends-go_on emit s r k _ _ _ _ (encode_region-Sends enc w.addr w.bytes w.len emit s fits) h)
