-- ===== src/Tools/Spi/Sent.antt =====
-- What the calibration tool has transferred when it is done, or when it gives up.
use p4_hmd.Base.{ℕ, zero, suc, ◌+◌, ◌-◌, ◌≡◌, ◌≤◌, ◌<◌, refl, sym, ◌∙◌, ap, subst, arith}
use p4_hmd.Base.{
  if◌then◌else◌, ◌==◌, Bool, true, false, Bool-cases, ltb, inl, inr, Option, none, some, min,
}
use p4_hmd.Base.{List, [], ◌∷◌, ◌++◌, take, drop, length, length-append, append-nil, append_assoc}
use p4_hmd.Base.Slices.{drop_all, split_bytes, length-take, length-drop}
use p4_hmd.Driver.Drainer.{spi_chunk_max}
use p4_hmd.Tools.Spi.{
  Calls, Line, Event, saw_ready, transferred, Polled, drain_events, edge_read, wait_ready_edge,
  record_sample, recheck_ready, send_from, spi_send_bytes_timed, called, log, is_high,
}

-- The bytes that went out.
unfoldable pub wire : List Event → List ℕ
wire [] = []
wire (saw_ready ∷ es) = wire es
wire (transferred c ∷ es) = c ++ wire es

pub wire-append : (es fs : List Event) → wire (es ++ fs) ≡ wire es ++ wire fs
unfolding wire
wire-append [] fs = refl
wire-append (saw_ready ∷ es) fs = wire-append es fs
wire-append (transferred c ∷ es) fs =
    ap (λ xs. c ++ xs) (wire-append es fs) ∙ sym (append_assoc c (wire es) (wire fs))

-- READY was seen directly before each transfer, and each is of a size that the FIFO takes; `ready` tells
-- whether it was seen last before the first event.
unfoldable pub IsGated : Bool → List Event → Type 0
IsGated ready [] = Unit
IsGated ready (saw_ready ∷ es) = IsGated true es
IsGated ready (transferred c ∷ es) =
    (ready ≡ true) × (0 < length c) × (length c ≤ spi_chunk_max) × IsGated false es

without_ready : (b : Bool) (es : List Event) → IsGated false es → IsGated b es
unfolding IsGated
without_ready b [] h = tt
without_ready b (saw_ready ∷ es) h = h
without_ready b (transferred c ∷ es) h = absurd (cc)

-- How a call ends that has the bytes `bytes` to send from `s`: with all of them sent in order, or with
-- a part of them from the start, and then a part is left.
pub record Sending (bytes : List ℕ) (s : Line) (r : Option ℕ × Line) : Type 0 where
  pub added : List Event
  pub left : List ℕ
  pub events : r.1.events ≡ s.events ++ added
  pub in_order : wire added ++ left ≡ bytes
  pub gated : IsGated false added
  pub done : {w : ℕ} → r.0 ≡ some w → left ≡ []
  pub missing : r.0 ≡ none → 0 < length left

-- What is on the wire, with what is left, is what was there and the bytes to send.
pub Sending-wire :
    (bytes : List ℕ) (s : Line) (r : Option ℕ × Line) (h : Sending bytes s r)
    → wire r.1.events ++ h.left ≡ wire s.events ++ bytes
Sending-wire bytes s r h =
    rw (h.events, wire-append s.events h.added)
      (append_assoc (wire s.events) (wire h.added) h.left
        ∙ ap (λ xs. wire s.events ++ xs) h.in_order)

record_sample-events : (n : ℕ) (s : Line) → (record_sample n s).events ≡ s.events
unfolding record_sample
record_sample-events n s = ground arith

module _ (os : Calls) where
  drain_events-events : (n : ℕ) (s : Line) → (drain_events os n s).events ≡ s.events
  unfolding drain_events
  drain_events-events zero s = refl
  drain_events-events (suc n) s = elim (Bool-cases (os.read_ok (suc s.calls))) [
    | inl t ↦ rw t (drain_events-events n (called (called s)))
    | inr f ↦ rw f refl
  ]

  -- A wait that succeeds has seen READY, and one that fails leaves no trace.
  abbrev Waited : Line → Bool × Line → Type 0
  Waited s (true, s') = s'.events ≡ s.events ++ (saw_ready ∷ [])
  Waited s (false, s') = s'.events ≡ s.events

  edge_read-Waited :
      (p : Polled) (s0 s : Line) → s.events ≡ s0.events → Waited s0 (edge_read os p s)
  edge_read-Waited Polled.failed s0 s e = e
  edge_read-Waited Polled.timed_out s0 s e = e
  edge_read-Waited Polled.event s0 s e = elim (Bool-cases (os.read_ok s.calls)) [
    | inl t ↦ rw t (ap (λ es. es ++ (saw_ready ∷ [])) e)
    | inr f ↦ rw f e
  ]

  wait_ready_edge-Waited : (s : Line) → Waited s (wait_ready_edge os s)
  unfolding wait_ready_edge
  wait_ready_edge-Waited s = elim (Bool-cases (is_high (os.line_value s.calls))) [
    | inl t ↦ rw t refl
    | inr f ↦
        rw f (edge_read-Waited _ s _ (drain_events-events (os.pending (suc s.calls)) (called s)))
  ]

  Waited-wire : (s : Line) (r : Bool × Line) → Waited s r → wire r.1.events ≡ wire s.events
  Waited-wire s (true, s') h =
      rw (h, wire-append s.events (saw_ready ∷ [])) (unfold wire in append-nil (wire s.events))
  Waited-wire s (false, s') h = ap wire h

  pub wait_ready_edge-wire : (s : Line) → wire (wait_ready_edge os s).1.events ≡ wire s.events
  wait_ready_edge-wire s = Waited-wire s (wait_ready_edge os s) (wait_ready_edge-Waited s)

  sampled-Waited :
      (n : ℕ) (s : Line) (r : Bool × Line)
      → Waited s r
      → Waited s (r.0, (if r.0 then record_sample n r.1 else r.1))
  sampled-Waited n s (true, s') h = record_sample-events n s' ∙ h
  sampled-Waited n s (false, s') h = h

  recheck_ready-Waited :
      (total offset : ℕ) (v : Option ℕ) (s : Line)
      → let r = recheck_ready os total offset v s in Waited s (r.0, r.2)
  unfolding recheck_ready
  recheck_ready-Waited total offset none s = refl
  recheck_ready-Waited total offset (some v) s = elim (Bool-cases (v == 1)) [
    | inl t ↦ rw t refl
    | inr f ↦ rw f (sampled-Waited (total + offset) s _ (wait_ready_edge-Waited s))
  ]

-- A call that goes on after a chunk, or that fails before or at it.
stop_here :
    (bytes : List ℕ) (s s' : Line) (es : List Event)
    → s'.events ≡ s.events ++ es
    → wire es ≡ []
    → IsGated false es
    → 0 < length bytes
    → Sending bytes s (none, s')
stop_here bytes s s' es e w g h = record {
  added = es;
  left = bytes;
  events = e;
  in_order = rw w refl;
  gated = g;
  done = λ q. absurd (cc);
  missing = λ q. h;
}

finish : (w : ℕ) (s : Line) → Sending [] s (some w, s)
finish w s = record {
  added = [];
  left = [];
  events = sym (append-nil s.events);
  in_order = unfold wire in refl;
  gated = unfold IsGated in tt;
  done = λ q. refl;
  missing = λ q. absurd (cc);
}

-- The events of a chunk sent.
abbrev chunk_events : List ℕ → List Event
chunk_events c = saw_ready ∷ transferred c ∷ []

after_chunk :
    (c bytes : List ℕ) (s s' : Line) (r : Option ℕ × Line)
    → 0 < length c
    → length c ≤ spi_chunk_max
    → s'.events ≡ s.events ++ (saw_ready ∷ transferred c ∷ [])
    → Sending bytes s' r
    → Sending (c ++ bytes) s r
after_chunk c bytes s s' r lo hi e h = record {
  added = saw_ready ∷ transferred c ∷ h.added;
  left = h.left;
  events = h.events ∙ rw (e, append_assoc s.events (saw_ready ∷ transferred c ∷ []) h.added) refl;
  in_order = unfold wire in (append_assoc c (wire h.added) h.left ∙ ap (λ xs. c ++ xs) h.in_order);
  gated = unfold IsGated in (refl, lo, hi, h.gated);
  done = h.done;
  missing = h.missing;
}

module _ (os : Calls) where
  -- One round of the loop, by whether READY came and whether the transfer succeeds.
  round-Sending :
      (came ok : Bool) (c bytes : List ℕ) (s s1 s2 : Line) (rest : Option ℕ × Line)
      → 0 < length c
      → length c ≤ spi_chunk_max
      → Waited os s (came, s1)
      → s2.events ≡ s1.events ++ (transferred c ∷ [])
      → Sending bytes s2 rest
      → Sending
          (c ++ bytes)
          s
          (if came then (if ok then rest else (none, called s1)) else (none, s1))
  round-Sending true true c bytes s s1 s2 rest lo hi w e h =
      after_chunk c bytes s s2 rest lo hi
        (rw (e, w) (append_assoc s.events (saw_ready ∷ []) (transferred c ∷ []))) h
  round-Sending true false c bytes s s1 s2 rest lo hi w e h =
      stop_here (c ++ bytes) s (called s1) (saw_ready ∷ []) w (unfold wire in refl)
        (unfold IsGated in tt) (omega (arith, length-append c bytes))
  round-Sending false ok c bytes s s1 s2 rest lo hi w e h =
      stop_here (c ++ bytes) s s1 [] (w ∙ sym (append-nil s.events)) (unfold wire in refl)
        (unfold IsGated in tt) (omega (arith, length-append c bytes))

  whole-Sending :
      (came ok : Bool) (c bytes whole : List ℕ) (s s1 s2 : Line) (rest : Option ℕ × Line)
      → c ++ bytes ≡ whole
      → 0 < length c
      → length c ≤ spi_chunk_max
      → Waited os s (came, s1)
      → s2.events ≡ s1.events ++ (transferred c ∷ [])
      → Sending bytes s2 rest
      → Sending whole s (if came then (if ok then rest else (none, called s1)) else (none, s1))
  whole-Sending came ok c bytes whole s s1 s2 rest p lo hi w e h =
      subst
        (λ (bs : List ℕ).
          Sending bs s (if came then (if ok then rest else (none, called s1)) else (none, s1)))
        p (round-Sending came ok c bytes s s1 s2 rest lo hi w e h)

  send_from-Sending :
      (fuel : ℕ) (bytes : List ℕ) (total offset waits : ℕ) (s : Line)
      → offset ≤ length bytes
      → length bytes ≤ offset + fuel
      → Sending (drop offset bytes) s (send_from os fuel bytes total offset waits s)
  unfolding send_from
  send_from-Sending zero bytes total offset waits s le h =
      rw (drop_all offset bytes (omega arith)) (finish waits s)
  send_from-Sending (suc fuel) bytes total offset waits s le h =
      let n = min spi_chunk_max (length bytes - offset) in
      let c = take n (drop offset bytes) in
      let r = recheck_ready os total offset (os.line_value s.calls) (called s) in
      elim (Bool-cases (ltb offset (length bytes))) [
        | inl t ↦
            let len : length c ≡ n =
              length-take n (drop offset bytes) (ground (arith, length-drop offset bytes)) in
            rw t (
              whole-Sending r.0 (os.transfer_ok r.2.calls) c (drop (offset + n) bytes)
                (drop offset bytes) s r.2 (log (transferred c) (called r.2)) _
                (split_bytes offset n bytes) (ground arith) (ground arith)
                (recheck_ready-Waited os total offset (os.line_value s.calls) (called s)) refl
                (send_from-Sending fuel bytes total (offset + n) (if r.1 then suc waits else waits)
                  _ (ground arith) (ground arith)))
        | inr f ↦ rw (f, drop_all offset bytes (ground arith)) (finish waits s)
      ]

-- The wait before the loop adds one sight of READY.
after_wait :
    (bytes : List ℕ) (s s' : Line) (r : Option ℕ × Line)
    → s'.events ≡ s.events ++ (saw_ready ∷ [])
    → Sending bytes s' r
    → Sending bytes s r
after_wait bytes s s' r e h = record {
  added = saw_ready ∷ h.added;
  left = h.left;
  events = h.events ∙ rw (e, append_assoc s.events (saw_ready ∷ []) h.added) refl;
  in_order = unfold wire in h.in_order;
  gated = unfold IsGated in without_ready true h.added h.gated;
  done = h.done;
  missing = h.missing;
}

started :
    (os : Calls) (bytes : List ℕ) (total : ℕ) (s : Line) (r : Bool × Line)
    → 0 < length bytes
    → Waited os s r
    → Sending bytes s (
        if r.0
        then send_from os (length bytes) bytes total 0 1 (record_sample total r.1)
        else (none, r.1))
started os bytes total s (true, s1) h w =
    after_wait bytes s (record_sample total s1) _ (record_sample-events total s1 ∙ w) (
      send_from-Sending os (length bytes) bytes total 0 1 (record_sample total s1) (omega arith)
        (omega arith))
started os bytes total s (false, s1) h w =
    stop_here bytes s s1 [] (w ∙ sym (append-nil s.events)) (unfold wire in refl)
      (unfold IsGated in tt) h

-- However READY and the transfers behave, sending bytes ends: either all of them went out, in order, or
-- -1 is returned, what went out is a part of them from the start, and a part is left. Each chunk has
-- between 1 and SPI_CHUNK_MAX bytes, and READY was seen before it, after the chunk before it.
pub spi_send_bytes_timed-Sending :
    (os : Calls) (bytes : List ℕ) (total : ℕ) (s : Line)
    → 0 < length bytes
    → Sending bytes s (spi_send_bytes_timed os bytes total s)
unfolding spi_send_bytes_timed
spi_send_bytes_timed-Sending os bytes total s h =
    started os bytes total s _ h (wait_ready_edge-Waited os s)
