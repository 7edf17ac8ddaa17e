-- ===== src/Driver/Vblank/Laws.antt =====
-- Any sequence of interrupts and timer periods: how far apart the vertical blanks are, and that each
-- wakes the drainer once.
use p4_hmd.Base.{
  ℕ, suc, ◌+◌, ◌≡◌, refl, ap, ◌∙◌, if◌then◌else◌, arith, u64, Bool, true, false, Bool-cases, sym,
  subst,
}
use p4_hmd.Base.{List, [], ◌∷◌, length, inl, inr}
use p4_hmd.Driver.State.{Clock}
use p4_hmd.Driver.Lifecycle.{p4_sender_signal_vsync}
use p4_hmd.Driver.Vblank.{
  Vblank, vsync_rate_limit_ok, handle_vblank, backup_timer_fn, vsync_irq_handler,
}

-- What happens, at a reading of the jiffies.
pub data Event : Type 0 where
  vsync_irq timer_period : ℕ → Event

abbrev pub handle : Clock → Event → Vblank → Vblank
handle clock (vsync_irq now) v = vsync_irq_handler clock now v
handle clock (timer_period now) v = backup_timer_fn clock now v

abbrev pub handle_all : Clock → List Event → Vblank → Vblank
handle_all clock [] v = v
handle_all clock (e ∷ es) v = handle_all clock es (handle clock e v)

-- Whether `now` is less than 10 ms after `last`.
abbrev pub is_early : Clock → ℕ → ℕ → Bool
is_early clock now last = clock.time_before now (u64 (last + clock.msecs_to_jiffies 10))

-- Each of the readings is at least the minimal interval after the one before it, the first after
-- `last`.
abbrev pub Spaced : Clock → ℕ → List ℕ → Type 0
Spaced clock last [] = Unit
Spaced clock last (now ∷ times) = (is_early clock now last ≡ false) × Spaced clock now times

-- Which events are vertical blanks, after one at `last` and with `seen` saying that the display's
-- interrupt came since the last period of the timer: an interrupt, unless it comes too early, and a
-- period without an interrupt before it, unless it ends too early. The list has their readings.
pub data Chosen (clock : Clock) : ℕ → Bool → List Event → List ℕ → Type 0 where
  no_events : {last : ℕ} {seen : Bool} → Chosen clock last seen [] []
  irq_blanks :
      {last : ℕ} {seen : Bool} {es : List Event} {times : List ℕ} (now : ℕ)
      → is_early clock now last ≡ false
      → Chosen clock now true es times
      → Chosen clock last seen (vsync_irq now ∷ es) (now ∷ times)
  irq_early :
      {last : ℕ} {seen : Bool} {es : List Event} {times : List ℕ} (now : ℕ)
      → is_early clock now last ≡ true
      → Chosen clock last true es times
      → Chosen clock last seen (vsync_irq now ∷ es) times
  timer_seen :
      {last : ℕ} {es : List Event} {times : List ℕ} (now : ℕ)
      → Chosen clock last false es times
      → Chosen clock last true (timer_period now ∷ es) times
  timer_blanks :
      {last : ℕ} {es : List Event} {times : List ℕ} (now : ℕ)
      → is_early clock now last ≡ false
      → Chosen clock now false es times
      → Chosen clock last false (timer_period now ∷ es) (now ∷ times)
  timer_early :
      {last : ℕ} {es : List Event} {times : List ℕ} (now : ℕ)
      → is_early clock now last ≡ true
      → Chosen clock last false es times
      → Chosen clock last false (timer_period now ∷ es) times

-- The vertical blanks from `v` to `v'` were at `times`.
pub record Blanks (clock : Clock) (es : List Event) (v v' : Vblank) (times : List ℕ) : Type 0 where
  pub chosen : Chosen clock v.last_vsync_jiffies v.hw_vsync_seen es times
  pub spaced : Spaced clock v.last_vsync_jiffies times
  pub counted : v'.vblank_count ≡ v.vblank_count + length times
  pub woken : v'.p4.vsync ≡ v.p4.vsync + length times

-- More vertical blanks after a step that is none, and after one.
not_blanked :
    (clock : Clock) (e : Event) (es : List Event) (v v' v'' : Vblank) (times : List ℕ)
    → v'.last_vsync_jiffies ≡ v.last_vsync_jiffies
    → v'.vblank_count ≡ v.vblank_count
    → v'.p4.vsync ≡ v.p4.vsync
    → Blanks clock es v' v'' times
    → Chosen clock v.last_vsync_jiffies v.hw_vsync_seen (e ∷ es) times
    → Blanks clock (e ∷ es) v v'' times
not_blanked clock e es v v' v'' times same count woken h c = record {
  chosen = c;
  spaced = rw (← same) h.spaced;
  counted = omega (arith, h.counted);
  woken = omega (arith, h.woken);
}

blanked :
    (clock : Clock) (e : Event) (es : List Event) (now : ℕ) (v v' v'' : Vblank) (times : List ℕ)
    → is_early clock now v.last_vsync_jiffies ≡ false
    → v'.last_vsync_jiffies ≡ now
    → v'.vblank_count ≡ suc v.vblank_count
    → v'.p4.vsync ≡ suc v.p4.vsync
    → Blanks clock es v' v'' times
    → Chosen clock v.last_vsync_jiffies v.hw_vsync_seen (e ∷ es) (now ∷ times)
    → Blanks clock (e ∷ es) v v'' (now ∷ times)
blanked clock e es now v v' v'' times late same count woken h c = record {
  chosen = c;
  spaced = (late, rw (← same) h.spaced);
  counted = omega (arith, h.counted);
  woken = omega (arith, h.woken);
}

irq-Blanks :
    (clock : Clock) (now : ℕ) (es : List Event) (v : Vblank)
    → ((u : Vblank) → (times : List ℕ) × Blanks clock es u (handle_all clock es u) times)
    → (times : List ℕ) × Blanks clock
        (vsync_irq now ∷ es)
        v
        (handle_all clock (vsync_irq now ∷ es) v)
        times
unfolding vsync_irq_handler vsync_rate_limit_ok handle_vblank p4_sender_signal_vsync
irq-Blanks clock now es v k = elim (Bool-cases (is_early clock now v.last_vsync_jiffies)) [
  | inl t ↦
      let v' = record v { hw_vsync_seen = true } in
      let (times, h) = k v' in
      rw t (times, not_blanked clock _ es v v' _ times refl refl refl h (irq_early now t h.chosen))
  | inr f ↦
      let v' = record v {
        hw_vsync_seen = true;
        last_vsync_jiffies = now;
        p4 = record (v.p4) { hw_vsync = true; vsync = suc v.p4.vsync };
        vblank_count = suc v.vblank_count;
      } in
      let (times, h) = k v' in
      rw f (
        now ∷ times,
        blanked clock _ es now v v' _ times f refl refl refl h (irq_blanks now f h.chosen),
      )
]

-- The period of the timer at `now`, by whether an interrupt was seen and whether it ends too early.
abbrev period_end : ℕ → Vblank → Bool → Bool → Vblank
period_end now v true early = record v { hw_vsync_seen = false; periods = suc v.periods }
period_end now v false true = record v { hw_vsync_seen = false; periods = suc v.periods }
period_end now v false false = record v {
  hw_vsync_seen = false;
  periods = suc v.periods;
  last_vsync_jiffies = now;
  p4 = record (v.p4) { hw_vsync = false; vsync = suc v.p4.vsync };
  vblank_count = suc v.vblank_count;
}

timer_period_end :
    (clock : Clock) (now : ℕ) (v : Vblank) (seen early : Bool)
    → v.hw_vsync_seen ≡ seen
    → is_early clock now v.last_vsync_jiffies ≡ early
    → backup_timer_fn clock now v ≡ period_end now v seen early
unfolding backup_timer_fn vsync_rate_limit_ok handle_vblank p4_sender_signal_vsync
timer_period_end clock now v seen early s e =
    let unseen = record v { hw_vsync_seen = false } in
    let body = λ (x y : Bool).
      let r : Bool × Vblank =
        if y then (false, unseen) else (true, record unseen { last_vsync_jiffies = now }) in
      let v' : Vblank =
        if x then unseen else (if r.0 then handle_vblank clock false r.1 else r.1) in
      record v' { periods = suc v'.periods } in
    ap (λ (x : Bool). body x (is_early clock now v.last_vsync_jiffies)) s
    ∙ ap (λ (y : Bool). body seen y) e
    ∙ elim seen as (λ (x : Bool). body x early ≡ period_end now v x early) [
      | true ↦ refl
      | false ↦ elim early as (λ (y : Bool). body false y ≡ period_end now v false y) [
        | true ↦ refl
        | false ↦ refl
      ]
    ]

timer-Blanks :
    (clock : Clock) (now : ℕ) (es : List Event) (v : Vblank)
    → ((u : Vblank) → (times : List ℕ) × Blanks clock es u (handle_all clock es u) times)
    → (times : List ℕ) × Blanks clock
        (timer_period now ∷ es)
        v
        (handle_all clock (timer_period now ∷ es) v)
        times
timer-Blanks clock now es v k =
    let last = v.last_vsync_jiffies in
    let ends =
      λ (seen : Bool) (times : List ℕ). Chosen clock last seen (timer_period now ∷ es) times in
    let goal = λ (q : Vblank).
      (times : List ℕ) × Blanks clock (timer_period now ∷ es) v (handle_all clock es q) times in
    elim (Bool-cases v.hw_vsync_seen) [
      | inl s ↦
          let v' = period_end now v true (is_early clock now last) in
          let (times, h) = k v' in
          subst goal (sym (timer_period_end clock now v true _ s refl)) (
            times,
            not_blanked clock _ es v v' _ times refl refl refl h
                (subst (λ (b : Bool). ends b times) (sym s) (timer_seen now h.chosen)),
          )
      | inr n ↦ elim (Bool-cases (is_early clock now last)) [
        | inl t ↦
            let v' = period_end now v false true in
            let (times, h) = k v' in
            subst goal (sym (timer_period_end clock now v false true n t)) (
              times,
              not_blanked clock _ es v v' _ times refl refl refl h
                  (subst (λ (b : Bool). ends b times) (sym n) (timer_early now t h.chosen)),
            )
        | inr f ↦
            let v' = period_end now v false false in
            let (times, h) = k v' in
            subst goal (sym (timer_period_end clock now v false false n f)) (
              now ∷ times,
              blanked clock _ es now v v' _ times f refl refl refl h (
                  subst (λ (b : Bool). ends b (now ∷ times)) (sym n) (timer_blanks now f h.chosen)),
            )
      ]
    ]

-- For any sequence of interrupts and timer periods, each with its reading of the jiffies: the vertical
-- blanks are the display's interrupts and, where none came since the last period, the periods of the
-- timer, less those that come less than 10 ms after the vertical blank before them. So each two are that
-- far apart; as many vertical blanks are counted, and as often the drainer is woken.
pub handle_all-Blanks :
    (clock : Clock) (es : List Event) (v : Vblank)
    → (times : List ℕ) × Blanks clock es v (handle_all clock es v) times
handle_all-Blanks clock [] v =
    ([], record { chosen = no_events; spaced = tt; counted = omega arith; woken = omega arith })
handle_all-Blanks clock (vsync_irq now ∷ es) v =
    irq-Blanks clock now es v (handle_all-Blanks clock es)
handle_all-Blanks clock (timer_period now ∷ es) v =
    timer-Blanks clock now es v (handle_all-Blanks clock es)
