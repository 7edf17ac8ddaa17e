-- ===== src/Update/Encoder/Correct.antt =====
-- `encode_diff` carries the display from the old buffer to the new one.
use native.Mathlib.Decide.{dec_lt}
use p4_hmd.Base.{ℕ, ◌+◌, ◌-◌, ◌*◌, ◌/◌, ◌^◌, ◌≤◌, ◌<◌, ◌≡◌, refl, subst, ◌∙◌, ap, arith, u64}
use p4_hmd.Base.{Bool, true, false, List, [], ◌∷◌, All, All-append, feed}
use p4_hmd.Base.{if◌then◌else◌, ◌⊎◌, inl, inr}
use p4_hmd.Update.Word.{Buffer, IsBytes, at}
use p4_hmd.Update.Diffs.Regions.{Region, Covers, find_diffs-Covers}
use p4_hmd.Update.Rle.Runs.{rle_runs-Partition}
use p4_hmd.Update.Packet.{PacketHeader, hdr_size_data}
use p4_hmd.Update.Display.{between, shown, draw_all, draw_all-append}
use p4_hmd.Update.Encoder.{EncoderState, EmitFn, diff_emit_cb, encode_diff, fb_size, rle_min_run}
use p4_hmd.Update.Encoder.Sends.{run_packets, after_runs}
use p4_hmd.Update.Encoder.Draws.{run_packets-draw}
use p4_hmd.Update.Encoder.Sound.{IsSound, run_packets-IsSound}
use p4_hmd.Update.Encoder.Regions.{after_runs-bitrev, region_runs, enter, diff_packets, diffs-Sends}

module _ (base : ℕ) (new : Buffer) (hn : IsBytes new) where
  region-draw :
      (enc : EncoderState) (start end : ℕ) (scr : Buffer) (i : ℕ)
      → start < end
      → base + end ≤ fb_size
      → draw_all
          (run_packets (enter base new enc (start, end)) (region_runs base new (start, end)))
          scr
          i
        ≡ (if between (base + start) (base + end) i
            then shown enc.bitrev (new (base + start + (i - (base + start))))
            else scr i)
  region-draw enc start end scr i h fits =
      let abs_start = base + start in
      let len = base + end - abs_start in
      let p = rle_runs-Partition (at new abs_start) len rle_min_run (λ j. hn _) in
      let e : abs_start + len ≡ base + end = omega arith in
      let z : abs_start + 0 ≡ abs_start = omega arith in
      rw
        (run_packets-draw (at new abs_start) abs_start 0 len (enter base new enc (start, end)) _ scr
          i p (omega arith) (omega arith))
        (rw (e, z) refl)

  region_inside :
      (enc : EncoderState) (start end : ℕ) (scr : Buffer) (i : ℕ)
      → base + start ≤ i
      → i < base + end
      → base + end ≤ fb_size
      → draw_all
          (run_packets (enter base new enc (start, end)) (region_runs base new (start, end)))
          scr
          i
        ≡ shown enc.bitrev (new i)
  region_inside enc start end scr i p q fits =
      let t : between (base + start) (base + end) i ≡ true = ground arith in
      let e : base + start + (i - (base + start)) ≡ i = omega arith in
      region-draw enc start end scr i (omega arith) fits ∙ rw (t, e)

  region_outside :
      (enc : EncoderState) (start end : ℕ) (scr : Buffer) (i : ℕ)
      → start < end
      → (i < base + start) ⊎ (base + end ≤ i)
      → base + end ≤ fb_size
      → draw_all
          (run_packets (enter base new enc (start, end)) (region_runs base new (start, end)))
          scr
          i
        ≡ scr i
  region_outside enc start end scr i h p fits =
      let t : between (base + start) (base + end) i ≡ false = ground arith in
      region-draw enc start end scr i h fits ∙ rw t

  pub diff_packets-IsSound :
      (old : Buffer) (gap len lo a : ℕ) (enc : EncoderState) (ds : List Region)
      → Covers old (at new base) gap len lo a ds
      → base + len ≤ fb_size
      → All IsSound (diff_packets base new enc ds)
  unfolding diff_packets
  diff_packets-IsSound old gap len lo a enc [] c fits = tt
  diff_packets-IsSound old gap len lo a enc ((start, end) ∷ ds) (c0, c1, c2, c3, c4, c5, c6, c7, c)
        fits =
      let d : Region = (start, end) in
      let n = base + end - (base + start) in
      let p = rle_runs-Partition (at new (base + start)) n rle_min_run (λ j. hn _) in
      All-append IsSound (run_packets (enter base new enc d) (region_runs base new d)) _
        (run_packets-IsSound (at new (base + start)) (base + start) 0 n (enter base new enc d) _ p
          (omega arith) (omega arith))
        (diff_packets-IsSound old gap len (end + gap) end _ ds c fits)

  pub diff_packets-draw :
      (old : Buffer) (gap len lo a : ℕ) (enc : EncoderState) (ds : List Region) (scr : Buffer)
      → Covers old (at new base) gap len lo a ds
      → base + len ≤ fb_size
      → ((i : ℕ) → a ≤ i → i < len → scr (base + i) ≡ shown enc.bitrev (old i))
      → ((i : ℕ)
          → a ≤ i
          → i < len
          → draw_all (diff_packets base new enc ds) scr (base + i)
            ≡ shown enc.bitrev (new (base + i)))
        × ((i : ℕ)
            → (i < base + a) ⊎ (base + len ≤ i)
            → draw_all (diff_packets base new enc ds) scr i ≡ scr i)
  unfolding diff_packets
  diff_packets-draw old gap len lo a enc [] scr c fits h =
      (λ i p q. h i p q ∙ ap (shown enc.bitrev) (c i p q), λ i p. refl)
  diff_packets-draw old gap len lo a enc ((start, end) ∷ ds) scr (c0, c1, c2, c3, c4, c5, c6, c7, c)
        fits h =
      let d : Region = (start, end) in
      let first = run_packets (enter base new enc d) (region_runs base new d) in
      let enc' = after_runs (enter base new enc d) (region_runs base new d) in
      let scr' = draw_all first scr in
      let same_bit : enc'.bitrev ≡ enc.bitrev = after_runs-bitrev _ _ in
      let inside = region_inside enc start end scr in
      let outside = region_outside enc start end scr in
      let rest = diff_packets-draw old gap len (end + gap) end enc' ds scr' c fits (λ i p q.
        rw same_bit
          (outside (base + i) c2 (inr (omega arith)) (omega arith) ∙ h i (omega arith) q)) in
      rw (draw_all-append first (diff_packets base new enc' ds) scr) (
        λ i p q. elim (dec_lt i end) [
          | yes k ↦ rest.1 (base + i) (inl (omega arith)) ∙ elim (dec_lt i start) [
            | yes m ↦
                outside (base + i) c2 (inl (omega arith)) (omega arith)
                ∙ h i p q
                ∙ ap (shown enc.bitrev) (c4 i p m)
            | no m ↦ inside (base + i) (omega arith) (omega arith) (omega arith)
          ]
          | no k ↦ rest.0 i (omega arith) q ∙ ap (λ b. shown b (new (base + i))) same_bit
        ],
        λ i p. rest.1 i (omega arith) ∙ outside i c2 (omega arith) (omega arith),
      )

-- The range that `encode_diff` scans: whole words.
abbrev pub scan_from : ℕ → ℕ
scan_from first = first / 8 * 8

abbrev pub scan_to : ℕ → ℕ
scan_to last = (last + 7) / 8 * 8

-- `at scr first` shows the buffer `buf` on `[first, last)`.
abbrev pub Shows : Bool → Buffer → Buffer → ℕ → ℕ → Type 0
Shows bitrev scr buf first last = (i : ℕ) → first ≤ i → i < last → scr i ≡ shown bitrev (buf i)

abbrev pub SameOutside : Buffer → Buffer → ℕ → ℕ → Type 0
SameOutside scr scr' first last = (i : ℕ) → (i < first) ⊎ (last ≤ i) → scr' i ≡ scr i

module _ (enc : EncoderState) (old new : Buffer) (ho : IsBytes old) (hn : IsBytes new)
    (first last : ℕ) (le : first ≤ last) (fits : last ≤ fb_size) where
  abbrev scan_len : ℕ
  scan_len = u64 (u64 (last + 7) / 8 * 8 + 2 ^ 64 - scan_from first)

  scan_len_lem : scan_len ≡ scan_to last - scan_from first
  scan_len_lem = omega arith

  scan_len_words : scan_len / 8 * 8 ≡ scan_to last - scan_from first
  scan_len_words = omega arith

  regions_draw :
      (ds : List Region) (scr : Buffer)
      → Covers
          (at old (scan_from first))
          (at new (scan_from first))
          hdr_size_data
          (scan_to last - scan_from first)
          0
          0
          ds
      → Shows enc.bitrev scr old (scan_from first) (scan_to last)
      → let ps = diff_packets (scan_from first) new enc ds in
        Shows enc.bitrev (draw_all ps scr) new (scan_from first) (scan_to last)
        × SameOutside scr (draw_all ps scr) (scan_from first) (scan_to last)
  regions_draw ds scr c h =
      let a = scan_from first in
      let n = scan_to last - a in
      let d =
        diff_packets-draw a new hn (at old a) hdr_size_data n 0 0 enc ds scr c (omega arith)
          (λ i p q. h (a + i) (omega arith) (omega arith)) in
      (
        λ i p q.
            let e : a + (i - a) ≡ i = omega arith in
            subst (λ (j : ℕ). draw_all (diff_packets a new enc ds) scr j ≡ shown enc.bitrev (new j))
              e (d.0 (i - a) (omega arith) (omega arith)),
        λ i p. d.1 i (omega arith),
      )

-- What `encode_diff` promises, for buffers of bytes and a range of the framebuffer, taken in whole
-- words. It hands packets to `emit` until one is refused, and returns whether all were accepted.
-- Each of the packets lies in the framebuffer. Drawn on a display that shows the old buffer in the
-- range, they make it show the new one there, and change nothing outside of the range.
pub encode_diff-draw {ℓ} :
    {S : Type ℓ} (emit : EmitFn S) (enc : EncoderState) (s : S) (old new : Buffer) (first last : ℕ)
    → IsBytes old
    → IsBytes new
    → first ≤ last
    → last ≤ fb_size
    → (ps : List PacketHeader) × (let r = encode_diff emit (enc, s) old new first last in
        (r.0, r.1.1) ≡ feed emit ps s)
      × All IsSound ps
      × ((scr : Buffer)
          → Shows enc.bitrev scr old (scan_from first) (scan_to last)
          → Shows enc.bitrev (draw_all ps scr) new (scan_from first) (scan_to last)
            × SameOutside scr (draw_all ps scr) (scan_from first) (scan_to last))
unfolding encode_diff
encode_diff-draw emit enc s old new first last ho hn le fits =
    let a = scan_from first in
    let len = scan_len enc old new ho hn first last le fits in
    let words = scan_len_words enc old new ho hn first last le fits in
    let (ds, calls, covers) =
      find_diffs-Covers (at old a) (at new a) len hdr_size_data (diff_emit_cb emit a new) (enc, s)
        (λ j. ho _) (λ j. hn _) (omega arith) in
    let c = rw words at covers in
    (
      diff_packets a new enc ds,
      rw calls
          (diffs-Sends a new emit (at old a) hdr_size_data _ 0 0 s enc ds c (omega arith)).result,
      diff_packets-IsSound a new hn (at old a) hdr_size_data _ 0 0 enc ds c (omega arith),
      λ scr h. regions_draw enc old new ho hn first last le fits ds scr c h,
    )
