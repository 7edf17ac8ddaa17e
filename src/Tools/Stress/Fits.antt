-- ===== src/Tools/Stress/Fits.antt =====
-- The regions of a stress frame lie in the framebuffer, and where asked for do not overlap.
use p4_hmd.Base.{ℕ, zero, suc, ◌+◌, ◌-◌, ◌≡◌, ◌≤◌, ◌<◌, refl, sym, subst, arith}
use p4_hmd.Base.{Bool, true, false, not, ◌&&◌, ◌||◌, ◌==◌, ltb, leb, if◌then◌else◌}
use p4_hmd.Base.{List, [], ◌∷◌, All}
use p4_hmd.Update.Encoder.{EncoderState, fb_size, encode_region}
use p4_hmd.Update.Encoder.Sends.{Sends, Sends-nothing}
use p4_hmd.Update.Encoder.Region.{after_region}
use p4_hmd.Tools.Calibrate.{FrameBuffer}
use p4_hmd.Tools.Stress.{
  Encoding, is_nonoverlap, StressOptions, stress_emit_packet, skip_used, free_run, mark_used,
  stress_data, random_place, stress_random,
}
use p4_hmd.Tools.Stress.Places.{random_place-Place, found-Place, stress_data-IsBytes}
use p4_hmd.Tools.Stress.Regions.{Region, IsRegion, total, packets_of, after_all, region-Sends}

-- No region touches an address that is used, or one of an earlier region.
abbrev pub Unused : (ℕ → Bool) → List Region → Type 0
Unused used [] = Unit
Unused used (w ∷ ws) =
    ((i : ℕ) → w.addr ≤ i → i < w.addr + w.len → used i ≡ false)
    × Unused (mark_used used w.addr w.len) ws

-- The regions that a loop writes, whatever the encoder and the buffer are, from a map of used addresses
-- and a count of bytes on; `b` says that they should not overlap.
pub record Stressed (b : Bool) (size : ℕ) (used : ℕ → Bool) (remaining : ℕ)
    (loop : Encoding → Bool × Encoding) : Type 0 where
  pub regions : List Region
  pub sends :
      (enc : EncoderState) (f : FrameBuffer)
      → Sends
          (stress_emit_packet size)
          f
          (loop (enc, f))
          (packets_of enc regions)
          (after_all enc regions)
  pub valid : All IsRegion regions
  pub within : total regions ≤ remaining
  pub all : b ≡ false → total regions ≡ remaining
  pub unused : b ≡ true → Unused used regions

nothing_more :
    (b : Bool) (size : ℕ) (used : ℕ → Bool) (remaining : ℕ)
    → (b ≡ false → remaining ≡ 0)
    → Stressed b size used remaining (λ e. (true, e))
nothing_more b size used remaining h = record {
  regions = [];
  sends = λ enc f. Sends-nothing (stress_emit_packet size) f enc;
  valid = tt;
  within = omega arith;
  all = λ e. sym (h e);
  unused = λ e. tt;
}

-- A loop that also returns a seed.
abbrev pub Loop : Type 0
Loop = Encoding → (Bool × Encoding) × ℕ

loop_if :
    (P : (Encoding → Bool × Encoding) → Type 0) (c : Bool) (x y : Loop)
    → (c ≡ true → P (λ e. (x e).0))
    → (c ≡ false → P (λ e. (y e).0))
    → P (λ e. (if c then x e else y e).0)
loop_if P true x y h k = h refl
loop_if P false x y h k = k refl

result_if {ℓ} :
    {A : Type ℓ} (c : Bool) (x y : A × ℕ) → (if c then x.0 else y.0) ≡ (if c then x else y).0
result_if true x y = refl
result_if false x y = refl

-- One region, and the loop after it.
one_more :
    (b : Bool) (size : ℕ) (used : ℕ → Bool) (remaining : ℕ) (w : Region) (rest : Loop) (seed : ℕ)
    → IsRegion w
    → w.len ≤ remaining
    → (b ≡ true → (i : ℕ) → w.addr ≤ i → i < w.addr + w.len → used i ≡ false)
    → Stressed b size
        (if b then mark_used used w.addr w.len else used)
        (remaining - w.len)
        (λ e. (rest e).0)
    → Stressed b size used remaining (λ e.
      let r = encode_region (stress_emit_packet size) e w.addr w.bytes w.len in
      (if r.0 then rest r.1 else ((false, r.1), seed)).0)
one_more b size used remaining w rest seed valid le free h = record {
  regions = w ∷ h.regions;
  sends = λ enc f.
      let r = encode_region (stress_emit_packet size) (enc, f) w.addr w.bytes w.len in
      subst
        (λ q.
          Sends (stress_emit_packet size) f q (packets_of enc (w ∷ h.regions))
            (after_all enc (w ∷ h.regions)))
        (result_if r.0 (rest r.1) ((false, r.1), seed))
        (region-Sends (stress_emit_packet size) f enc w h.regions (λ e. (rest e).0) valid.inside
          (λ t. h.sends (after_region enc w.addr w.bytes w.len) t));
  valid = (valid, h.valid);
  within = omega (arith, h.within);
  all = λ e. omega (arith, h.all e);
  unused = λ e. (
    free e,
    subst (λ (c : Bool). Unused (if c then mark_used used w.addr w.len else used) h.regions) e
        (h.unused e),
  );
}

module _ (o : StressOptions) (memory : (n : ℕ) → o.malloc_ok n ≡ true) where
  abbrev b : Bool
  b = is_nonoverlap o.mode

  pub stress_random-Stressed :
      (fuel : ℕ) (used : ℕ → Bool) (remaining seed : ℕ)
      → remaining ≤ fuel
      → Stressed b o.buffer_size used remaining
          (λ e. (stress_random o fuel used remaining seed e).0)
  unfolding stress_random
  stress_random-Stressed zero used remaining seed le =
      nothing_more b o.buffer_size used remaining (λ _. omega arith)
  stress_random-Stressed (suc fuel) used remaining seed le =
      let (at, wanted, seed1) = random_place remaining seed in
      let addr = if b then skip_used (fb_size - at) used at else at in
      let len = if b then free_run wanted used addr else wanted in
      let used' = if b then mark_used used addr len else used in
      let (bytes, seed2) = stress_data o.use_rle len seed1 in
      let w : Region = record { addr = addr; len = len; bytes = bytes } in
      let P = Stressed b o.buffer_size used remaining in
      let stop = nothing_more b o.buffer_size used remaining in
      loop_if P (not (ltb 0 remaining)) (λ e. ((true, e), seed)) _ (λ t. stop (λ _. ground arith))
        (λ go.
          loop_if P (b && (leb fb_size addr || len == 0)) (λ e. ((true, e), seed1)) _
            (λ t. stop (λ e. absurd (ground (arith, e, t))))
            (λ g.
              loop_if P (not (o.malloc_ok remaining)) (λ e. ((false, e), seed1)) _
                (λ t. absurd (ground (arith, memory remaining)))
                (λ _.
                  let (place, free) =
                    found-Place b used remaining at wanted
                      (random_place-Place remaining seed (ground arith)) g in
                  one_more b o.buffer_size used remaining w
                    (stress_random o fuel used' (remaining - len) seed2) seed2
                    (record {
                      inside = place.inside;
                      some_bytes = place.some_bytes;
                      short = place.short;
                      is_bytes = stress_data-IsBytes o.use_rle len seed1;
                    })
                    place.within free
                    (stress_random-Stressed fuel used' (remaining - len) seed2
                      (omega (arith, place.some_bytes))))))
