-- ===== src/Update/Encoder/Same.antt =====
-- `encode_diff` on two equal buffers.
use p4_hmd.Base.{
  ℕ, ◌+◌, ◌-◌, ◌^◌, ◌/◌, ◌*◌, ◌≡◌, refl, ◌∙◌, ap, arith, u64, true, List, [], ◌∷◌, feed,
}
use p4_hmd.Update.Word.{Buffer, IsBytes, at}
use p4_hmd.Update.Diffs.Regions.{Region, Covers, call, find_diffs-Covers}
use p4_hmd.Update.Packet.{hdr_size_data}
use p4_hmd.Update.Encoder.{EncoderState, EmitFn, diff_emit_cb, encode_diff}

-- A region starts where the buffers differ.
no_regions :
    (buf : Buffer) (gap len : ℕ) (ds : List Region) → Covers buf buf gap len 0 0 ds → ds ≡ []
no_regions buf gap len [] c = refl
no_regions buf gap len (d ∷ ds) (c0, c1, c2, c3, c4, c5, c6, c7, c) = absurd (c5 refl)

-- For a buffer of bytes that has not changed `encode_diff` succeeds without a packet, in any range.
pub encode_diff_same {ℓ} :
    {S : Type ℓ} (emit : EmitFn S) (es : EncoderState × S) (buf : Buffer) (first last : ℕ)
    → IsBytes buf
    → encode_diff emit es buf buf first last ≡ (true, es)
unfolding encode_diff
encode_diff_same emit es buf first last h =
    let a = first / 8 * 8 in
    let b = at buf a in
    let (ds, calls, covers) =
      find_diffs-Covers b b (u64 (u64 (last + 7) / 8 * 8 + 2 ^ 64 - a)) hdr_size_data
        (diff_emit_cb emit a buf) es (λ j. h _) (λ j. h _) (omega arith) in
    calls
    ∙ ap (λ rs. feed (call (diff_emit_cb emit a buf)) rs es)
        (no_regions b hdr_size_data _ ds covers)
