-- ===== src/Driver/Frame/Skipped.antt =====
-- What `encode_frame` leaves when it reports no frame.
use p4_hmd.Base.{ℕ, ◌≡◌, ◌≤◌, ◌<◌, refl, ap, arith, Bool, true, false, List, [], ◌∷◌}
use p4_hmd.Base.{length, All, Bool-cases, ◌⊎◌, inl, inr, if◌then◌else◌}
use p4_hmd.Update.Word.{Buffer, IsBytes}
use p4_hmd.Update.Packet.{PacketHeader}
use p4_hmd.Update.Display.{shown}
use p4_hmd.Update.Encoder.{fb_size}
use p4_hmd.Update.Encoder.Sound.{IsSound}
use p4_hmd.Driver.State.{Device}
use p4_hmd.Driver.Buffer.{buf_is_empty, buf_reset}
use p4_hmd.Driver.Buffer.Laws.{all_bytes}
use p4_hmd.Driver.Buffer.Wire.{length-all_bytes}
use p4_hmd.Driver.Frame.{encode_frame, encode_buffers, start_frame, finish_frame}
use p4_hmd.Driver.Frame.Packets.{Carries, Encodes, encode_buffers-Encodes}
use p4_hmd.Driver.Frame.Correct.{
  frame_state, encode_buffers-Outcome, encoded, refused, encode_frame-cases,
}

-- The display shows the same for both buffers.
abbrev pub SameShown : Bool → Buffer → Buffer → Type 0
SameShown bitrev old new = (i : ℕ) → i < fb_size → shown bitrev (old i) ≡ shown bitrev (new i)

-- The state after a frame was not encoded although the device was online and the frame dirty:
-- nothing is left to send, the refresh mode stays, and the frame is dirty as before, or it is clean
-- and does not differ from the reference.
pub record FrameDropped (s s' : Device) : Type 0 where
  pub nothing : s'.buf ≡ []
  pub from_start : s'.buf_pos ≡ 0
  pub same_mode : s'.force_full ≡ s.force_full
  pub retried :
      (s'.dirty ≡ s.dirty)
      ⊎ ((s'.dirty ≡ false)
          × (s.force_full ≡ false)
          × SameShown s.is_native s.dst_buf_2 s.dst_buf_0)

dropped_refused :
    (do_full : Bool) (s : Device) (bytes : List ℕ)
    → FrameDropped s (finish_frame (false, frame_state do_full s bytes)).1
unfolding finish_frame start_frame buf_reset
dropped_refused true s bytes = record {
  nothing = refl;
  from_start = refl;
  same_mode = refl;
  retried = inl refl;
}
dropped_refused false s bytes = record {
  nothing = refl;
  from_start = refl;
  same_mode = refl;
  retried = inl refl;
}

Carries-SameShown :
    (s : Device) → Carries (start_frame s) [] → SameShown s.is_native s.dst_buf_2 s.dst_buf_0
unfolding start_frame buf_reset
Carries-SameShown s c i h =
    c (λ j. shown s.is_native (s.dst_buf_2 j)) (λ _ j p q. refl) i (omega arith) h

empty_list : (xs : List PacketHeader) → length xs ≤ 0 → xs ≡ []
empty_list [] h = refl
empty_list (x ∷ xs) h = absurd (omega arith)

-- Without a packet the refresh is not full, and the frame shows as the reference.
no_packets :
    (s : Device) (ps : List PacketHeader)
    → Encodes (start_frame s) ps
    → ps ≡ []
    → (s.force_full ≡ false) × SameShown s.is_native s.dst_buf_2 s.dst_buf_0
unfolding start_frame buf_reset
no_packets s ps h e =
    let not_full : s.force_full ≡ false = elim (Bool-cases s.force_full) [
      | inl t ↦ absurd (h.full t e)
      | inr f ↦ f
    ] in
    (not_full, Carries-SameShown s (rw e at h.carries))

if_true_first :
    (b : Bool) (x y : Device)
    → let r : Bool × Device = (if b then (false, x) else (true, y)) in
      r.0 ≡ false → (b ≡ true) × (r ≡ (false, x))
if_true_first true x y e = (refl, refl)
if_true_first false x y e = cc

finish_frame-false :
    (s : Device)
    → (finish_frame (true, s)).0 ≡ false
    → (buf_is_empty s ≡ true) × (finish_frame (true, s) ≡ (false, record s { dirty = false }))
unfolding finish_frame
finish_frame-false s e = if_true_first (buf_is_empty s) _ _ e

no_bytes :
    (do_full : Bool) (s : Device) (ps : List PacketHeader)
    → All IsSound ps
    → buf_is_empty (frame_state do_full s (all_bytes ps)) ≡ true
    → ps ≡ []
unfolding start_frame buf_reset buf_is_empty
no_bytes true s ps sound e = empty_list ps (ground (arith, length-all_bytes ps sound))
no_bytes false s ps sound e = empty_list ps (ground (arith, length-all_bytes ps sound))

empty_dropped :
    (do_full : Bool) (s : Device) (ps : List PacketHeader)
    → ps ≡ []
    → (s.force_full ≡ false) × SameShown s.is_native s.dst_buf_2 s.dst_buf_0
    → FrameDropped s (record (frame_state do_full s (all_bytes ps)) { dirty = false })
unfolding start_frame buf_reset
empty_dropped true s ps none same = record {
  nothing = ap all_bytes none;
  from_start = refl;
  same_mode = refl;
  retried = inr (refl, same.0, same.1);
}
empty_dropped false s ps none same = record {
  nothing = ap all_bytes none;
  from_start = refl;
  same_mode = refl;
  retried = inr (refl, same.0, same.1);
}

dropped_empty :
    (s : Device) (ps : List PacketHeader)
    → Encodes (start_frame s) ps
    → (finish_frame (true, frame_state s.force_full s (all_bytes ps))).0 ≡ false
    → FrameDropped s (finish_frame (true, frame_state s.force_full s (all_bytes ps))).1
dropped_empty s ps h e =
    let (empty, same) = finish_frame-false (frame_state s.force_full s (all_bytes ps)) e in
    let none = no_bytes s.force_full s ps h.sound empty in
    rw same (empty_dropped s.force_full s ps none (no_packets s ps h none))

dropped :
    (s : Device) (ps : List PacketHeader)
    → Encodes (start_frame s) ps
    → (finish_frame (encode_buffers (start_frame s))).0 ≡ false
    → FrameDropped s (finish_frame (encode_buffers (start_frame s))).1
dropped s ps h e = elim (encode_buffers-Outcome s ps h) [
  | encoded r room ↦ rw r (dropped_empty s ps h (rw r at e))
  | refused bytes r ↦ rw r (dropped_refused s.force_full s bytes)
]

-- When `encode_frame` reports no frame, either nothing has changed, and the device is offline or the
-- frame is not dirty; or nothing is left to send and the refresh mode is as before, and the frame
-- stays dirty unless it does not differ from the reference on the display.
pub encode_frame-FrameDropped :
    (s : Device)
    → IsBytes s.dst_buf_0
    → IsBytes s.dst_buf_2
    → (encode_frame s).0 ≡ false
    → (((encode_frame s).1 ≡ s) × ((s.device_online ≡ false) ⊎ (s.dirty ≡ false)))
      ⊎ FrameDropped s (encode_frame s).1
unfolding start_frame buf_reset
encode_frame-FrameDropped s h0 h2 e =
    let (ps, h) = encode_buffers-Encodes (start_frame s) h0 h2 in
    elim (encode_frame-cases s) [
      | inl r ↦ inr (rw r (dropped s ps h (rw r at e)))
      | inr n ↦ inl (ap (λ x. x.1) n.0, n.1)
    ]
