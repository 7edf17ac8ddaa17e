-- ===== src/Driver/Frame/Correct.antt =====
-- What `encode_frame` leaves in the send buffer, read by the display, and what a frame that is not
-- sent leaves.
use p4_hmd.Base.{ℕ, ◌≡◌, ◌≤◌, refl, sym, subst, ◌∙◌, ap, arith, Bool, true, false, not}
use p4_hmd.Base.{List, [], length, All, some, Bool-cases, ◌⊎◌, inl, inr}
use p4_hmd.Base.{if◌then◌else◌, pair_same}
use p4_hmd.Update.Word.{Buffer, IsBytes}
use p4_hmd.Update.Packet.{PacketHeader}
use p4_hmd.Update.Display.{draw_all}
use p4_hmd.Update.Receiver.{receive}
use p4_hmd.Update.Encoder.{fb_size}
use p4_hmd.Update.Encoder.Sound.{IsSound}
use p4_hmd.Update.Encoder.Correct.{Shows}
use p4_hmd.Driver.State.{Device, buf_len}
use p4_hmd.Driver.Buffer.{spi_buf_size, buf_is_empty, buf_reset}
use p4_hmd.Driver.Buffer.Laws.{all_bytes, with_bytes, Queued, feed-buf_emit-Queued}
use p4_hmd.Driver.Buffer.Wire.{receive-all_bytes, last_flags, length-all_bytes}
use p4_hmd.Driver.Frame.{encode_frame, encode_buffers, start_frame, finish_frame}
use p4_hmd.Driver.Frame.Packets.{Encodes, Carries, encode_buffers-Encodes, reference, reference_for}

-- The display, reading the send buffer, comes to show `buf`.
abbrev pub Delivers : Device → Bool → Buffer → Buffer → Type 0
Delivers s bitrev scr buf =
    (flags : ℕ)
    → (scr' : Buffer) × (flags' : ℕ) × (receive (buf_len s) s.buf (scr, flags)
        ≡ some (scr', flags'))
      × Shows bitrev scr' buf 0 fb_size

-- The state after a frame was encoded, given the one before.
pub record FrameReady (s s' : Device) : Type 0 where
  pub clean : s'.dirty ≡ false
  pub refreshed : s'.force_full ≡ false
  pub candidate : s'.dst_buf_1 ≡ s.dst_buf_0
  pub from_start : s'.buf_pos ≡ 0
  pub not_empty : buf_is_empty s' ≡ false
  pub room : buf_len s' ≤ spi_buf_size
  pub old_reference : s'.dst_buf_2 ≡ (reference s).dst_buf_2
  pub same_native : s'.is_native ≡ s.is_native
  pub same_online : s'.device_online ≡ s.device_online
  pub unsent : s'.spi_bytes ≡ s.spi_bytes
  pub delivers :
      (scr : Buffer)
      → (s.force_full ≡ false → Shows s.is_native scr s.dst_buf_2 0 fb_size)
      → Delivers s' s.is_native scr s.dst_buf_0

-- The states in which sending a frame can end.
abbrev pub frame_state : Bool → Device → List ℕ → Device
frame_state do_full s bytes = with_bytes (reference_for do_full (start_frame s)) bytes

pub data Outcome (s : Device) (ps : List PacketHeader) : Type 0 where
  encoded :
      encode_buffers (start_frame s) ≡ (true, frame_state s.force_full s (all_bytes ps))
      → length (all_bytes ps) ≤ spi_buf_size
      → Outcome s ps
  refused :
      (bytes : List ℕ)
      → encode_buffers (start_frame s) ≡ (false, frame_state s.force_full s bytes)
      → Outcome s ps

reference-buf : (do_full : Bool) (s : Device) → (reference_for do_full (start_frame s)).buf ≡ []
unfolding start_frame buf_reset
reference-buf true s = refl
reference-buf false s = refl

pub encode_buffers-Outcome :
    (s : Device) (ps : List PacketHeader) → Encodes (start_frame s) ps → Outcome s ps
unfolding start_frame buf_reset
encode_buffers-Outcome s ps h =
    let c = start_frame s in
    let r = encode_buffers c in
    let q = subst (λ r. Queued ps (reference c) r) (sym h.result) (feed-buf_emit-Queued ps _) in
    elim (Bool-cases r.0) [
      | inl t ↦
          Outcome.encoded
            (pair_same r true _ t (q.after ∙ ap (λ bs. with_bytes (reference c) bs) (q.all t)))
            (subst (λ (bs : List ℕ). length bs ≤ spi_buf_size)
              (rw (reference-buf s.force_full s, q.all t) refl)
              (q.room (rw (reference-buf s.force_full s) (omega arith))))
      | inr f ↦ Outcome.refused q.bytes (pair_same r false _ f q.after)
    ]

if_false_first :
    (b : Bool) (x y : Device)
    → let r : Bool × Device = (if b then (false, x) else (true, y)) in
      r.0 ≡ true → (b ≡ false) × (r ≡ (true, y))
if_false_first true x y e = cc
if_false_first false x y e = (refl, refl)

-- The frame is ready only if it is not empty.
finish_frame-true :
    (s : Device)
    → (finish_frame (true, s)).0 ≡ true
    → (buf_is_empty s ≡ false)
      × (finish_frame (true, s) ≡ (true, record s { dirty = false; force_full = false }))
unfolding finish_frame
finish_frame-true s e = if_false_first (buf_is_empty s) _ _ e

ready_state : Bool → Device → List PacketHeader → Device
ready_state do_full s ps = record (frame_state do_full s (all_bytes ps)) {
  dirty = false;
  force_full = false;
}

frame_ready :
    (do_full : Bool) (s : Device) (ps : List PacketHeader)
    → All IsSound ps
    → do_full ≡ s.force_full
    → Carries (start_frame s) ps
    → length (all_bytes ps) ≤ spi_buf_size
    → buf_is_empty (frame_state do_full s (all_bytes ps)) ≡ false
    → FrameReady s (ready_state do_full s ps)
unfolding finish_frame start_frame buf_reset buf_is_empty ready_state
frame_ready true s ps sound d carries room e = record {
  clean = refl;
  refreshed = refl;
  candidate = refl;
  from_start = refl;
  not_empty = e;
  room = room;
  old_reference = ap (λ b. (reference_for b s).dst_buf_2) d;
  same_native = refl;
  same_online = refl;
  unsent = refl;
  delivers = λ scr old flags. (
    draw_all ps scr,
    last_flags flags ps,
    receive-all_bytes ps _ scr flags sound (length-all_bytes ps sound),
    carries scr old,
  );
}
frame_ready false s ps sound d carries room e = record {
  clean = refl;
  refreshed = refl;
  candidate = refl;
  from_start = refl;
  not_empty = e;
  room = room;
  old_reference = ap (λ b. (reference_for b s).dst_buf_2) d;
  same_native = refl;
  same_online = refl;
  unsent = refl;
  delivers = λ scr old flags. (
    draw_all ps scr,
    last_flags flags ps,
    receive-all_bytes ps _ scr flags sound (length-all_bytes ps sound),
    carries scr old,
  );
}

if_both :
    (b c : Bool) (x : Device) (y : Bool × Device)
    → let r = (if not b then (false, x) else (if not c then (false, x) else y)) in
      (r ≡ y) ⊎ ((r ≡ (false, x)) × ((b ≡ false) ⊎ (c ≡ false)))
if_both false c x y = inr (refl, inl refl)
if_both true false x y = inr (refl, inr refl)
if_both true true x y = inl refl

pub encode_frame-cases :
    (s : Device)
    → (encode_frame s ≡ finish_frame (encode_buffers (start_frame s)))
      ⊎ ((encode_frame s ≡ (false, s)) × ((s.device_online ≡ false) ⊎ (s.dirty ≡ false)))
unfolding encode_frame
encode_frame-cases s = if_both s.device_online s.dirty s _

finished_ready :
    (s : Device) (ps : List PacketHeader)
    → Encodes (start_frame s) ps
    → (finish_frame (encode_buffers (start_frame s))).0 ≡ true
    → FrameReady s (finish_frame (encode_buffers (start_frame s))).1
unfolding finish_frame ready_state
finished_ready s ps h e = elim (encode_buffers-Outcome s ps h) [
  | encoded r room ↦
      let (full, same) =
        finish_frame-true (frame_state s.force_full s (all_bytes ps)) (rw r at e) in
      rw (r, same) (frame_ready s.force_full s ps h.sound refl h.carries room full)
  | refused bytes r ↦ let x : false ≡ true = rw r at e in cc
]

-- When `encode_frame` reports a frame, `dirty` and `force_full` are cleared, the frame is the
-- candidate reference, and the send buffer, from its start and within its size, holds bytes that the
-- display reads in full: one that showed the old reference, or anything at all if a full refresh was
-- due, then shows the frame.
pub encode_frame-FrameReady :
    (s : Device)
    → IsBytes s.dst_buf_0
    → IsBytes s.dst_buf_2
    → (encode_frame s).0 ≡ true
    → FrameReady s (encode_frame s).1
unfolding start_frame buf_reset
encode_frame-FrameReady s h0 h2 e =
    let (ps, h) = encode_buffers-Encodes (start_frame s) h0 h2 in
    elim (encode_frame-cases s) [
      | inl r ↦ rw r (finished_ready s ps h (rw r at e))
      | inr n ↦ let x : false ≡ true = rw n.0 at e in cc
    ]
