-- ===== src/Tools/PatternTest/Shown.antt =====
-- What the display shows for the bytes that the pattern test sends.
use p4_hmd.Base.{ℕ, ◌-◌, ◌≡◌, ◌<◌, ◌⊎◌, refl, sym, ◌∙◌, ap, arith}
use p4_hmd.Base.{Bool, true, false, Bool-cases, inl, inr, some}
use p4_hmd.Base.{List, [], ◌∷◌, ◌++◌, take, length, append-nil, All, go_on}
use p4_hmd.Update.Word.{Buffer}
use p4_hmd.Update.Packet.{PacketHeader}
use p4_hmd.Update.Display.{draw_all}
use p4_hmd.Update.Encoder.{fb_size}
use p4_hmd.Update.Encoder.Sound.{IsSound}
use p4_hmd.Update.Encoder.Correct.{Shows}
use p4_hmd.Driver.Buffer.Wire.{receive-all_bytes, last_flags}
use p4_hmd.Update.Receiver.{receive}
use p4_hmd.Driver.Buffer.Laws.{all_bytes}
use p4_hmd.Tools.Patterns.{Pattern, generate_pattern}
use p4_hmd.Tools.Spi.{Calls, Line, wait_ready_edge}
use p4_hmd.Tools.Spi.Sent.{wire, wait_ready_edge-wire}
use p4_hmd.Tools.PatternTest.{Options, Session, fresh_session, run_enabled, run_pattern_test}
use p4_hmd.Tools.PatternTest.Carried.{Outcome}
use p4_hmd.Tools.PatternTest.Sequence.{last_pattern, Settled, show_patterns-first}

module _ (os : Calls) (options : Options) (before : List ℕ)
    (some_frames : 0 < options.pattern_frames) where
  abbrev gen : Pattern → ℕ → Buffer
  gen = generate_pattern options.stripe_count

  abbrev last_frame : ℕ
  last_frame = options.pattern_frames - 1

  -- The test was run to its end: the display reads what was sent in full, and then shows `fb`.
  abbrev pub Finished : Buffer → Session → Type 0
  Finished fb s =
      (n : ℕ) × (sent : List ℕ) × (wire s.line.events ≡ before ++ sent)
      × ((scr : Buffer) (flags : ℕ)
          → (scr' : Buffer) × (flags' : ℕ) × (receive n sent (scr, flags) ≡ some (scr', flags'))
            × Shows options.pattern_bitrev scr' fb 0 fb_size)
      × (s.enable ≡ false)

  Settled-Finished :
      (fb : Buffer) (s : Session)
      → Settled os options before fb s
      → Finished fb (record s { enable = false })
  Settled-Finished fb s h =
      let ps = h.carries.packets in
      (
        length ps,
        all_bytes ps,
        sym (append-nil (wire s.line.events))
            ∙ ap (λ xs. wire s.line.events ++ xs) (sym h.sent)
            ∙ h.carries.bytes,
        λ scr flags. (
          draw_all ps scr,
          last_flags flags ps,
          receive-all_bytes ps (length ps) scr flags h.carries.sound (omega arith),
          h.carries.shows scr,
        ),
        refl,
      )

  -- The test has given up; ENABLE is low, or else nothing was sent.
  abbrev pub Stopped : Session → Type 0
  Stopped s =
      (ps : List PacketHeader) × (left : List ℕ) × All IsSound ps
      × (wire s.line.events ++ left ≡ before ++ all_bytes ps)
      × ((s.enable ≡ false) ⊎ (wire s.line.events ≡ before))

  abbrev pub Ending : Buffer → Bool × Session → Type 0
  Ending fb (true, s) = Finished fb s
  Ending fb (false, s) = Stopped s

  nothing_sent : (s : Session) → wire s.line.events ≡ before → Stopped s
  nothing_sent s e = ([], [], tt, ap (λ xs. xs ++ []) e, inr e)

  Outcome-Ending :
      (fb : Buffer) (r : Bool × Session)
      → Outcome before (Settled os options before fb) r
      → Ending fb (go_on r (λ s. (true, record s { enable = false })))
  Outcome-Ending fb (true, s) h = Settled-Finished fb s h
  Outcome-Ending fb (false, s) h = (h.packets, h.left, h.sound, h.bytes, inl h.disabled)

  run_enabled-Ending :
      (p : Pattern) (rest : List Pattern) (s : Session)
      → wire s.line.events ≡ before
      → Ending (gen (last_pattern p rest) last_frame) (run_enabled os options (p ∷ rest) s)
  unfolding run_enabled
  run_enabled-Ending p rest s e =
      let w = wait_ready_edge-wire os s.line ∙ e in
      let fb = gen (last_pattern p rest) last_frame in
      elim (Bool-cases (wait_ready_edge os s.line).0) [
        | inl t ↦
            rw t
              (Outcome-Ending fb _ (show_patterns-first os options before some_frames p rest _ w))
        | inr f ↦ rw f (nothing_sent (record s { line = (wait_ready_edge os s.line).1 }) w)
      ]

-- With one frame of each pattern at least: if the pattern test returns 0, the bytes that it sent are
-- read in full by the display, which then shows, whatever it showed before, the last frame of the last
-- pattern (of 32 at most), and ENABLE is low. If it fails, what was sent is a part, from the start, of
-- the bytes of packets that the display can read, and ENABLE is low or nothing was sent at all.
pub run_pattern_test-Ending :
    (os : Calls) (options : Options) (allocated : Bool) (p : Pattern) (rest : List Pattern)
    (line : Line) (enable : Bool) (some_frames : 0 < options.pattern_frames)
    → Ending os options
        (wire line.events)
        some_frames
        (generate_pattern options.stripe_count
          (last_pattern p (take 31 rest))
          (options.pattern_frames - 1))
        (run_pattern_test os options allocated (p ∷ rest) line enable)
unfolding run_pattern_test
run_pattern_test-Ending os options true p rest line enable h =
    run_enabled-Ending os options (wire line.events) h p (take 31 rest) _ refl
run_pattern_test-Ending os options false p rest line enable h =
    nothing_sent os options (wire line.events) h (fresh_session line enable) refl
