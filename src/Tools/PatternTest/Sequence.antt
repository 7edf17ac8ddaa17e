-- ===== src/Tools/PatternTest/Sequence.antt =====
-- The loops of the pattern test over frames and patterns.
use p4_hmd.Base.{ℕ, zero, suc, ◌+◌, ◌-◌, ◌≡◌, ◌<◌, refl, ◌∙◌, ap, subst, arith}
use p4_hmd.Base.{Bool, true, false, ltb, ◌==◌, ◌&&◌, inl, inr}
use p4_hmd.Base.{List, [], ◌∷◌}
use p4_hmd.Update.Word.{Buffer, IsBytes}
use p4_hmd.Tools.Patterns.{Pattern, generate_pattern}
use p4_hmd.Tools.Calibrate.{frame_buffer_used}
use p4_hmd.Tools.Spi.{Calls}
use p4_hmd.Tools.Spi.Sent.{wire}
use p4_hmd.Tools.PatternTest.{
  Options, Session, is_animate, send_frames, pattern_loop, flush_frames, show_pattern,
  show_patterns,
}
use p4_hmd.Tools.PatternTest.Carried.{
  Carries, Outcome, Outcome-go_on, Outcome-map, Outcome-if, IsSent, send_frames-Carries,
  length-zero,
}
use p4_hmd.Tools.PatternTest.Framed.{Holds, pattern_frame-first, pattern_frame-next}

abbrev pub last_pattern : Pattern → List Pattern → Pattern
last_pattern p [] = p
last_pattern p (q ∷ rest) = last_pattern q rest

module _ (os : Calls) (options : Options) (before : List ℕ) where
  abbrev pub bitrev : Bool
  bitrev = options.pattern_bitrev

  abbrev pub gen : Pattern → ℕ → Buffer
  gen = generate_pattern options.stripe_count

  abbrev Held : Pattern → Buffer → Session → Type 0
  Held = Holds os options before

  -- The last frame of `left` from `frame` on, or the one before.
  abbrev loop_end : ℕ → Buffer → Pattern → ℕ → Buffer
  loop_end zero old p frame = old
  loop_end (suc left) old p frame = loop_end left (gen p frame) p (frame + 1)

  loop_end-last :
      (left : ℕ) (old : Buffer) (p : Pattern) (frame : ℕ)
      → loop_end (suc left) old p frame ≡ gen p (frame + left)
  loop_end-last zero old p frame = let e : frame + 0 ≡ frame = omega arith in rw e refl
  loop_end-last (suc left) old p frame =
      let e : frame + 1 + left ≡ frame + suc left = omega arith in
      loop_end-last left (gen p frame) p (frame + 1) ∙ ap (gen p) e

  pattern_loop-Holds :
      (left : ℕ) (first : Bool) (p : Pattern) (old : Buffer) (frame : ℕ) (s : Session)
      → (first && frame == 0) ≡ false
      → Held p old s
      → Outcome before
          (Held p (loop_end left old p frame))
          (pattern_loop os options left first p frame s)
  unfolding pattern_loop
  pattern_loop-Holds zero first p old frame s e h = h
  pattern_loop-Holds (suc left) first p old frame s e h =
      Outcome-go_on before (Held p (gen p frame)) _ _ _
        (pattern_frame-next os options before first p old frame s e h)
        (λ s' h'. pattern_loop-Holds left first p (gen p frame) (frame + 1) s' (ground arith) h')

  -- Between two patterns all is sent.
  pub record Settled (fb : Buffer) (s : Session) : Type 0 where
    pub carries : Carries before bitrev fb s
    pub old : s.old_fb ≡ fb
    pub is_bytes : IsBytes fb
    pub sent : IsSent s

  flush_frames-Settled :
      (p : Pattern) (fb : Buffer) (s : Session)
      → Held p fb s
      → Outcome before (Settled fb) (flush_frames os p s)
  unfolding flush_frames
  flush_frames-Settled p fb s h =
      Outcome-if before (Settled fb) (is_animate p && ltb 0 (frame_buffer_used s.frame_buffer)) _ _
        (λ t.
          Outcome-map before _ (Settled fb) (send_frames os s)
            (send_frames-Carries os before bitrev fb s h.carries)
            (λ s' k. record {
              carries = k.0.0;
              old = k.0.1 ∙ h.old;
              is_bytes = h.is_bytes;
              sent = k.1;
            }))
        (λ u. record {
          carries = h.carries;
          old = h.old;
          is_bytes = h.is_bytes;
          sent = elim h.idle [
            | inl t ↦ length-zero os before bitrev fb s.frame_buffer.bytes (ground arith)
            | inr e ↦ e
          ];
        })

  module _ (some_frames : 0 < options.pattern_frames) where
    abbrev pub last_frame : ℕ
    last_frame = options.pattern_frames - 1

    pattern_loop-first :
        (left : ℕ) (p : Pattern) (s : Session)
        → 0 < left
        → wire s.line.events ≡ before
        → Outcome before (Held p (gen p (left - 1))) (pattern_loop os options left true p 0 s)
    unfolding pattern_loop
    pattern_loop-first zero p s lt e = absurd (omega arith)
    pattern_loop-first (suc left) p s lt e =
        let index : 0 + left ≡ suc left - 1 = omega arith in
        let last = loop_end-last left (gen p 0) p 0 ∙ ap (gen p) index in
        subst
          (λ (fb : Buffer).
            Outcome before (Held p fb) (pattern_loop os options (suc left) true p 0 s))
          last
          (Outcome-go_on before (Held p (gen p 0)) _ _ _
            (pattern_frame-first os options before p s e)
            (λ s' h. pattern_loop-Holds left true p (gen p 0) 1 s' (ground arith) h))

    pattern_loop-next :
        (left : ℕ) (p : Pattern) (old : Buffer) (s : Session)
        → 0 < left
        → Held p old s
        → Outcome before (Held p (gen p (left - 1))) (pattern_loop os options left false p 0 s)
    pattern_loop-next zero p old s lt h = absurd (omega arith)
    pattern_loop-next (suc left) p old s lt h =
        let index : 0 + left ≡ suc left - 1 = omega arith in
        let last = loop_end-last left old p 0 ∙ ap (gen p) index in
        subst
          (λ (fb : Buffer).
            Outcome before (Held p fb) (pattern_loop os options (suc left) false p 0 s))
          last (pattern_loop-Holds (suc left) false p old 0 s refl h)

    show_pattern-first :
        (p : Pattern) (s : Session)
        → wire s.line.events ≡ before
        → Outcome before (Settled (gen p last_frame)) (show_pattern os options true p s)
    unfolding show_pattern
    show_pattern-first p s e =
        Outcome-go_on before (Held p (gen p last_frame)) _ _ _
          (pattern_loop-first options.pattern_frames p s some_frames e)
          (flush_frames-Settled p (gen p last_frame))

    show_pattern-next :
        (p : Pattern) (old : Buffer) (s : Session)
        → Settled old s
        → Outcome before (Settled (gen p last_frame)) (show_pattern os options false p s)
    unfolding show_pattern
    show_pattern-next p old s h =
        let held : Held p old s = record {
          carries = h.carries;
          old = h.old;
          is_bytes = h.is_bytes;
          idle = inr h.sent;
        } in
        Outcome-go_on before (Held p (gen p last_frame)) _ _ _
          (pattern_loop-next options.pattern_frames p old s some_frames held)
          (flush_frames-Settled p (gen p last_frame))

    show_patterns-Settled :
        (p : Pattern) (rest : List Pattern) (s : Session)
        → Settled (gen p last_frame) s
        → Outcome before
            (Settled (gen (last_pattern p rest) last_frame))
            (show_patterns os options false rest s)
    unfolding show_patterns
    show_patterns-Settled p [] s h = h
    show_patterns-Settled p (q ∷ rest) s h =
        Outcome-go_on before (Settled (gen q last_frame)) _ _ _
          (show_pattern-next q (gen p last_frame) s h) (λ s' h'. show_patterns-Settled q rest s' h')

    pub show_patterns-first :
        (p : Pattern) (rest : List Pattern) (s : Session)
        → wire s.line.events ≡ before
        → Outcome before
            (Settled (gen (last_pattern p rest) last_frame))
            (show_patterns os options true (p ∷ rest) s)
    unfolding show_patterns
    show_patterns-first p rest s e =
        Outcome-go_on before (Settled (gen p last_frame)) _ _ _ (show_pattern-first p s e)
          (λ s' h. show_patterns-Settled p rest s' h)
