-- ===== src/Update/Encoder/Sends.antt =====
-- The encoder as a source of packets: what it hands to `emit`, whatever `emit` does, and the state
-- in which it goes on when all was accepted.
use p4_hmd.Base.{ℕ, ◌+◌, ◌≡◌, refl, u16, Bool, true, false}
use p4_hmd.Base.{List, [], ◌∷◌, ◌++◌, feed, feed-append, go_on, if◌then◌else◌}
use p4_hmd.Update.Rle.{Run}
use p4_hmd.Update.Packet.{PacketHeader}
use p4_hmd.Update.Encoder.{EncoderState, EmitFn, packet, emit_packet, rle_emit_cb}

module _ {ℓ} {S : Type ℓ} (emit : EmitFn S) where
  -- The run `r` from the context `s` handed the packets `ps` to `emit` until one was refused; if
  -- none was, the encoder's state is `enc`.
  pub record Sends (s : S) (r : Bool × (EncoderState × S)) (ps : List PacketHeader)
      (enc : EncoderState) : Type ℓ where
    pub result : (r.0, r.1.1) ≡ feed emit ps s
    pub state : r.0 ≡ true → r.1.0 ≡ enc

  pub Sends-go_on :
      (s : S) (r : Bool × (EncoderState × S)) (k : EncoderState × S → Bool × (EncoderState × S))
      (ps qs : List PacketHeader) (enc enc' : EncoderState)
      → Sends s r ps enc
      → ((t : S) → Sends t (k (enc, t)) qs enc')
      → Sends s (go_on r k) (ps ++ qs) enc'
  Sends-go_on s (true, (e, t)) k ps qs enc enc' h g =
      let same : e ≡ enc = h.state refl in
      let rest = g t in
      record {
        result = rw (feed-append emit ps qs s, ← h.result, same) rest.result;
        state = rw same (rest.state);
      }
  Sends-go_on s (false, (e, t)) k ps qs enc enc' h g = record {
    result = rw (feed-append emit ps qs s, ← h.result);
    state = λ c. cc;
  }

  pub Sends-nothing : (s : S) (enc : EncoderState) → Sends s (true, (enc, s)) [] enc
  Sends-nothing s enc = record { result = refl; state = λ _. refl }

-- The encoder's state after a packet of `len` bytes.
abbrev pub after_packet : EncoderState → ℕ → EncoderState
after_packet enc len = record enc { new_frame = false; addr = u16 (enc.addr + len) }

-- The packets of a list of runs, and the state after them.
unfoldable pub run_packets : EncoderState → List Run → List PacketHeader
run_packets enc [] = []
run_packets enc (r ∷ rs) =
    packet enc r.is_rle r.bytes (u16 r.len) ∷ run_packets (after_packet enc (u16 r.len)) rs

unfoldable pub after_runs : EncoderState → List Run → EncoderState
after_runs enc [] = enc
after_runs enc (r ∷ rs) = after_runs (after_packet enc (u16 r.len)) rs

module _ {ℓ} {S : Type ℓ} (emit : EmitFn S) where
  emitted-Sends :
      (s : S) (enc : EncoderState) (p : PacketHeader) (len : ℕ) (sent : Bool × S)
      → emit p s ≡ sent
      → Sends emit s
          (if sent.0 then (true, (after_packet enc len, sent.1)) else (false, (enc, sent.1)))
          (p ∷ [])
          (after_packet enc len)
  emitted-Sends s enc p len (true, t) e = record { result = rw e; state = λ _. refl }
  emitted-Sends s enc p len (false, t) e = record { result = rw e; state = λ c. cc }

  rle_emit_cb-Sends :
      (s : S) (enc : EncoderState) (r : Run)
      → Sends emit s
          (rle_emit_cb emit r (enc, s))
          (packet enc r.is_rle r.bytes (u16 r.len) ∷ [])
          (after_packet enc (u16 r.len))
  unfolding rle_emit_cb emit_packet
  rle_emit_cb-Sends s enc r =
      let p = packet enc r.is_rle r.bytes (u16 r.len) in
      emitted-Sends s enc p (u16 r.len) (emit p s) refl

  pub runs-Sends :
      (s : S) (enc : EncoderState) (rs : List Run)
      → Sends emit s (feed (rle_emit_cb emit) rs (enc, s)) (run_packets enc rs) (after_runs enc rs)
  unfolding run_packets after_runs
  runs-Sends s enc [] = Sends-nothing emit s enc
  runs-Sends s enc (r ∷ rs) =
      let enc' = after_packet enc (u16 r.len) in
      Sends-go_on emit s (rle_emit_cb emit r (enc, s)) (feed (rle_emit_cb emit) rs) _
        (run_packets enc' rs) enc' (after_runs enc' rs) (rle_emit_cb-Sends s enc r)
        (λ t. runs-Sends t enc' rs)
