-- ===== src/Driver/Drainer/Sent.antt =====
-- What the send loop transfers, and how it leaves the state.
use p4_hmd.Base.{
  ℕ, zero, suc, ◌+◌, ◌-◌, ◌≡◌, ◌≤◌, ◌<◌, ◌&&◌, ◌||◌, length, refl, ◌∙◌, ap, arith, Bool, true,
  false,
}
use p4_hmd.Base.{List, [], ◌++◌, take, drop, min, ltb, append-nil, append_assoc, Bool-cases}
use p4_hmd.Base.{inl, inr}
use p4_hmd.Base.Slices.{drop_all, split_bytes, length-drop}
use p4_hmd.Driver.State.{Device, Handshake, buf_len}
use p4_hmd.Driver.Buffer.{buf_reset}
use p4_hmd.Driver.Link.{hw_wait_ready, wait_for_ready}
use p4_hmd.Driver.Drainer.{
  spi_chunk_max, ChunkEnv, SendResult, hw_spi_transfer, advance, send_chunks, after_chunk,
}

-- The state after the waits left `c` signals of READY, and `bytes` were transferred.
abbrev pub transferred : Device → ℕ → List ℕ → Device
transferred s c bytes = record s { ready_completion = c; spi_bytes = s.spi_bytes ++ bytes }

-- A round of the send loop fails: READY does not come, or the transfer is refused.
abbrev pub is_answered : Handshake → Bool
is_answered h = h.ready_first || (h.ready_again || h.signalled)

abbrev pub Fails : ChunkEnv → Type 0
Fails e = (is_answered e.handshake && e.transfer_ok) ≡ false

-- How the send loop ends from `s`: all is transferred, in order; or in some round it fails, a part that
-- is not all is transferred, and the buffer is empty; or so, and the thread stops.
pub data Sending (env : ℕ → ChunkEnv) (s : Device) (r : SendResult × Device) : Type 0 where
  all_sent :
      (c : ℕ)
      → r
        ≡ (SendResult.sent, record (transferred s c (drop s.buf_pos s.buf)) { buf_pos = buf_len s })
      → Sending env s r
  gave_up :
      (c k : ℕ) (bytes left : List ℕ)
      → Fails (env k)
      → 0 < length left
      → bytes ++ left ≡ drop s.buf_pos s.buf
      → r ≡ (SendResult.failed, record (transferred s c bytes) { buf = []; buf_pos = 0 })
      → Sending env s r
  was_stopped :
      (c k : ℕ) (bytes left : List ℕ) (pos : ℕ)
      → Fails (env k)
      → (env k).should_stop ≡ true
      → 0 < length left
      → pos ≤ buf_len s
      → bytes ++ left ≡ drop s.buf_pos s.buf
      → r ≡ (SendResult.stopped, record (transferred s c bytes) { buf_pos = pos })
      → Sending env s r

wait_keeps :
    (h : Handshake) (s : Device)
    → (c : ℕ) × ((hw_wait_ready h s).1 ≡ record s { ready_completion = c })
unfolding hw_wait_ready wait_for_ready
wait_keeps h s = (_, refl)

wait_answers : (h : Handshake) (s : Device) → is_answered h ≡ (hw_wait_ready h s).0
unfolding hw_wait_ready wait_for_ready
wait_answers h s = refl

-- The state after one chunk.
abbrev sent_chunk : Device → ℕ → ℕ → Device
sent_chunk s c n = advance n (transferred s c (take n (drop s.buf_pos s.buf)))

more-Sending :
    (env : ℕ → ChunkEnv) (s : Device) (c n : ℕ) (rest : SendResult × Device)
    → Sending (λ k. env (suc k)) (sent_chunk s c n) rest
    → Sending env s rest
unfolding advance
more-Sending env s c n rest (all_sent c' e) = all_sent c' (
    e
    ∙ rw
        (
          append_assoc s.spi_bytes (take n (drop s.buf_pos s.buf)) (drop (s.buf_pos + n) s.buf),
          split_bytes s.buf_pos n s.buf,
        )
        refl)
more-Sending env s c n rest (gave_up c' k bytes left bad some_left p e) =
    gave_up c' (suc k) (take n (drop s.buf_pos s.buf) ++ bytes) left bad some_left
      (append_assoc (take n (drop s.buf_pos s.buf)) bytes left
        ∙ ap (λ xs. take n (drop s.buf_pos s.buf) ++ xs) p
        ∙ split_bytes s.buf_pos n s.buf)
      (e ∙ rw (append_assoc s.spi_bytes (take n (drop s.buf_pos s.buf)) bytes) refl)
more-Sending env s c n rest (was_stopped c' k bytes left pos bad stop some_left at p e) =
    was_stopped c' (suc k) (take n (drop s.buf_pos s.buf) ++ bytes) left pos bad stop some_left at
      (append_assoc (take n (drop s.buf_pos s.buf)) bytes left
        ∙ ap (λ xs. take n (drop s.buf_pos s.buf) ++ xs) p
        ∙ split_bytes s.buf_pos n s.buf)
      (e ∙ rw (append_assoc s.spi_bytes (take n (drop s.buf_pos s.buf)) bytes) refl)

after_chunk-Sending :
    (env : ℕ → ChunkEnv) (ready stop ok : Bool) (s : Device) (c n : ℕ)
    (rest : Device → SendResult × Device)
    → is_answered (env 0).handshake ≡ ready
    → (env 0).should_stop ≡ stop
    → (env 0).transfer_ok ≡ ok
    → s.buf_pos < buf_len s
    → Sending (λ k. env (suc k)) (sent_chunk s c n) (rest (sent_chunk s c n))
    → let s1 = record s { ready_completion = c } in
      let s2 = (hw_spi_transfer (take n (drop s1.buf_pos s1.buf)) ok s1).1 in
      Sending env s (after_chunk ready stop ok s1 s2 (rest (advance n s2)))
unfolding hw_spi_transfer buf_reset advance
after_chunk-Sending env false true ok s c n rest a st t lt h =
    was_stopped c 0 [] (drop s.buf_pos s.buf) s.buf_pos (ground (arith, a)) st
      (omega (arith, length-drop s.buf_pos s.buf)) (omega arith) refl
      (rw (append-nil s.spi_bytes) refl)
after_chunk-Sending env false false ok s c n rest a st t lt h =
    gave_up c 0 [] (drop s.buf_pos s.buf) (ground (arith, a))
      (omega (arith, length-drop s.buf_pos s.buf)) refl (rw (append-nil s.spi_bytes) refl)
after_chunk-Sending env true stop false s c n rest a st t lt h =
    gave_up c 0 [] (drop s.buf_pos s.buf) (ground (arith, t))
      (omega (arith, length-drop s.buf_pos s.buf)) refl (rw (append-nil s.spi_bytes) refl)
after_chunk-Sending env true stop true s c n rest a st t lt h =
    more-Sending env s c n (rest (sent_chunk s c n)) h

-- With as much fuel as there are bytes left, the send loop transfers all of them in order, or ends
-- early, in a round in which READY does not come or the transfer is refused, with at least one byte left.
pub send_chunks-Sending :
    (fuel : ℕ) (env : ℕ → ChunkEnv) (s : Device)
    → s.buf_pos ≤ buf_len s
    → buf_len s ≤ s.buf_pos + fuel
    → Sending env s (send_chunks fuel env s)
unfolding send_chunks hw_spi_transfer advance
send_chunks-Sending zero env s le h =
    let e : s.buf_pos ≡ buf_len s = omega arith in
    let none = drop_all s.buf_pos s.buf (omega arith) in
    all_sent s.ready_completion (rw (none, append-nil s.spi_bytes, ← e) refl)
send_chunks-Sending (suc fuel) env s le h =
    let n = min spi_chunk_max (buf_len s - s.buf_pos) in
    let (c, e) = wait_keeps (env 0).handshake s in
    let rest = λ (s' : Device). send_chunks fuel (λ k. env (suc k)) s' in
    elim (Bool-cases (ltb s.buf_pos (buf_len s))) [
      | inl t ↦
          rw (t, e)
            (after_chunk-Sending env (hw_wait_ready (env 0).handshake s).0 (env 0).should_stop
              (env 0).transfer_ok s c n rest (wait_answers (env 0).handshake s) refl refl
              (ground arith)
              (send_chunks-Sending fuel (λ k. env (suc k)) (sent_chunk s c n) (ground arith)
                (ground arith)))
      | inr f ↦
          let e : s.buf_pos ≡ buf_len s = ground arith in
          let none = drop_all s.buf_pos s.buf (omega arith) in
          rw f (all_sent s.ready_completion (rw (none, append-nil s.spi_bytes, ← e) refl))
    ]
