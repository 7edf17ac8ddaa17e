-- ===== src/Tools/PatternTest/Framed.antt =====
-- One frame of the pattern test.
use p4_hmd.Base.{ℕ, zero, suc, ◌-◌, ◌≡◌, ◌<◌, ◌⊎◌, refl, sym, ◌∙◌, ap, arith}
use p4_hmd.Base.{Bool, true, false, Bool-cases, ltb, ◌==◌, ◌&&◌, inl, inr}
use p4_hmd.Base.{List, [], ◌++◌, if◌then◌else◌}
use p4_hmd.Update.Word.{Buffer, IsBytes}
use p4_hmd.Update.Display.{shown, draw_all}
use p4_hmd.Update.Encoder.{fb_size}
use p4_hmd.Update.Encoder.Correct.{Shows}
use p4_hmd.Tools.Patterns.{Pattern, generate_pattern}
use p4_hmd.Tools.Patterns.Bytes.{generate_pattern-IsBytes}
use p4_hmd.Tools.Calibrate.{FrameBuffer, frame_buffer_used}
use p4_hmd.Tools.Calibrate.Frames.{encode_diff_to_buffer-Frame, encode_full_to_buffer-Frame}
use p4_hmd.Tools.Spi.{Calls}
use p4_hmd.Tools.Spi.Sent.{wire}
use p4_hmd.Tools.PatternTest.{
  Options, Session, frame_buffer_size, emptied, same_bytes, is_animate, send_frames, first_frame,
  animate_frame, diff_frame, pattern_frame,
}
use p4_hmd.Tools.PatternTest.Carried.{
  Carries, Outcome, Outcome-go_on, Outcome-map, Outcome-if, IsSent, send_frames-Carries, Ready,
  after_encode-Outcome,
}

same_bytes-same : (n : ℕ) (a b : Buffer) → same_bytes n a b ≡ true → (i : ℕ) → i < n → a i ≡ b i
unfolding same_bytes
same_bytes-same zero a b h i lt = absurd (omega arith)
same_bytes-same (suc n) a b h i lt = elim (Bool-cases (i == n)) [
  | inl t ↦ let e : i ≡ n = ground arith in rw e (ground arith)
  | inr f ↦ same_bytes-same n a b (ground arith) i (ground arith)
]

-- Nothing waits in the buffer, unless an animation gathers its frames there.
abbrev pub Idle : Pattern → Session → Type 0
Idle p s = (is_animate p ≡ true) ⊎ IsSent s

module _ (os : Calls) (options : Options) (before : List ℕ) where
  abbrev pub bitrev : Bool
  bitrev = options.pattern_bitrev

  abbrev pub gen : Pattern → ℕ → Buffer
  gen = generate_pattern options.stripe_count

  -- The session carries `fb`, which it keeps as its old frame.
  pub record Holds (p : Pattern) (fb : Buffer) (s : Session) : Type 0 where
    pub carries : Carries before bitrev fb s
    pub old : s.old_fb ≡ fb
    pub is_bytes : IsBytes fb
    pub idle : Idle p s

  abbrev pub Framed : Pattern → Buffer → Session → Type 0
  Framed p fb s = Carries before bitrev fb s × Idle p s

  send-Framed :
      (p : Pattern) (fb : Buffer) (s : Session)
      → Carries before bitrev fb s
      → Outcome before (Framed p fb) (send_frames os s)
  send-Framed p fb s c =
      Outcome-map before _ (Framed p fb) (send_frames os s)
        (send_frames-Carries os before bitrev fb s c) (λ s' h. (h.0.0, inr h.1))

  first_frame-Framed :
      (p : Pattern) (fb : Buffer) (s : Session)
      → IsBytes fb
      → wire s.line.events ≡ before
      → Outcome before (Framed p fb) (first_frame os options p fb s)
  unfolding first_frame
  first_frame-Framed p fb s h e =
      let f = emptied s.frame_buffer in
      let ready : Ready before s f (λ _. Unit) = record {
        packets = [];
        sound = tt;
        bytes = ap (λ xs. xs ++ []) e;
        holds = λ scr. tt;
      } in
      after_encode-Outcome before bitrev fb s f (λ _. Unit) ready (Framed p fb) _ _
        (encode_full_to_buffer-Frame frame_buffer_size bitrev true fb f h (omega arith))
        (λ s' c.
          Outcome-if before (Framed p fb) (is_animate p) _ _ (λ t. (c.0, inl t))
            (λ u. send-Framed p fb s' c.0))

  old_shows :
      (p : Pattern) (fb : Buffer) (s : Session) (h : Holds p fb s) (scr : Buffer)
      → Shows bitrev (draw_all h.carries.packets scr) s.old_fb 0 fb_size
  old_shows p fb s h scr i lo hi =
      h.carries.shows scr i lo hi ∙ ap (λ (b : Buffer). shown bitrev (b i)) (sym h.old)

  -- The packets so far, where `f` holds the bytes that wait.
  old_ready :
      (p : Pattern) (fb : Buffer) (s : Session) (h : Holds p fb s) (f : FrameBuffer)
      → f.bytes ≡ s.frame_buffer.bytes
      → Ready before s f (λ scr. Shows bitrev scr s.old_fb 0 fb_size)
  old_ready p fb s h f e = record {
    packets = h.carries.packets;
    sound = h.carries.sound;
    bytes = ap (λ xs. wire s.line.events ++ xs) e ∙ h.carries.bytes;
    holds = old_shows p fb s h;
  }

  animate_frame-Framed :
      (p : Pattern) (old fb : Buffer) (s : Session)
      → IsBytes fb
      → Holds p old s
      → is_animate p ≡ true
      → Outcome before (Framed p fb) (animate_frame os options fb s)
  unfolding animate_frame
  animate_frame-Framed p old fb s hb h t =
      after_encode-Outcome before bitrev fb s s.frame_buffer _
        (old_ready p old s h s.frame_buffer refl) (Framed p fb) _ _
        (encode_diff_to_buffer-Frame frame_buffer_size bitrev true s.old_fb fb s.frame_buffer
          (λ j. rw h.old (h.is_bytes j)) hb h.carries.room)
        (λ s' c.
          Outcome-if before (Framed p fb)
            (ltb (frame_buffer_size - 20000) (frame_buffer_used s'.frame_buffer)) _ _
            (λ u. send-Framed p fb s' c.0) (λ u. (c.0, inl t)))

  diff_frame-Framed :
      (p : Pattern) (old fb : Buffer) (frame : ℕ) (s : Session)
      → IsBytes fb
      → Holds p old s
      → IsSent s
      → Outcome before (Framed p fb) (diff_frame os options frame fb s)
  unfolding diff_frame
  diff_frame-Framed p old fb frame s hb h sent =
      Outcome-if before (Framed p fb) (same_bytes fb_size s.old_fb fb) _ _
        (λ t. (
          record {
            packets = h.carries.packets;
            sound = h.carries.sound;
            bytes = h.carries.bytes;
            room = h.carries.room;
            shows = λ scr i lo hi.
                old_shows p old s h scr i lo hi
                ∙ ap (shown bitrev) (same_bytes-same fb_size s.old_fb fb t i hi);
          },
          inr sent,
        ))
        (λ u.
          after_encode-Outcome before bitrev fb s (emptied s.frame_buffer) _
            (old_ready p old s h (emptied s.frame_buffer) (sym sent)) (Framed p fb) _ _
            (encode_diff_to_buffer-Frame frame_buffer_size bitrev (frame == 0) s.old_fb fb
              (emptied s.frame_buffer) (λ j. rw h.old (h.is_bytes j)) hb (omega arith))
            (λ s' c. send-Framed p fb s' c.0))

  set_old :
      (p : Pattern) (fb : Buffer) (s : Session)
      → IsBytes fb
      → Framed p fb s
      → Holds p fb (record s { old_fb = fb })
  set_old p fb s hb (c, idle) = record {
    carries = record {
      packets = c.packets;
      sound = c.sound;
      bytes = c.bytes;
      room = c.room;
      shows = c.shows;
    };
    old = refl;
    is_bytes = hb;
    idle = idle;
  }

  other_frame-Framed :
      (p : Pattern) (old fb : Buffer) (frame : ℕ) (s : Session)
      → IsBytes fb
      → Holds p old s
      → Outcome before
          (Framed p fb)
          (if is_animate p then animate_frame os options fb s else diff_frame os options frame fb s)
  other_frame-Framed p old fb frame s hb h =
      Outcome-if before (Framed p fb) (is_animate p) _ _ (animate_frame-Framed p old fb s hb h)
        (λ u. elim h.idle [
          | inl t ↦ absurd (cc)
          | inr sent ↦ diff_frame-Framed p old fb frame s hb h sent
        ])

  pub pattern_frame-first :
      (p : Pattern) (s : Session)
      → wire s.line.events ≡ before
      → Outcome before (Holds p (gen p 0)) (pattern_frame os options true p 0 s)
  unfolding pattern_frame
  pattern_frame-first p s e =
      let hb = generate_pattern-IsBytes options.stripe_count p 0 in
      Outcome-go_on before (Framed p (gen p 0)) (Holds p (gen p 0)) _ _
        (first_frame-Framed p (gen p 0) s hb e) (λ s' h. set_old p (gen p 0) s' hb h)

  pub pattern_frame-next :
      (first : Bool) (p : Pattern) (old : Buffer) (frame : ℕ) (s : Session)
      → (first && frame == 0) ≡ false
      → Holds p old s
      → Outcome before (Holds p (gen p frame)) (pattern_frame os options first p frame s)
  unfolding pattern_frame
  pattern_frame-next first p old frame s e h =
      let hb = generate_pattern-IsBytes options.stripe_count p frame in
      Outcome-go_on before (Framed p (gen p frame)) (Holds p (gen p frame)) _ _
        (Outcome-if before (Framed p (gen p frame)) (first && frame == 0) _ _ (λ t. absurd (cc))
          (λ u. other_frame-Framed p old (gen p frame) frame s hb h))
        (λ s' k. set_old p (gen p frame) s' hb k)
