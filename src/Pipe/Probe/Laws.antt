-- ===== src/Pipe/Probe/Laws.antt =====
-- What `p4_probe` leaves behind when it fails and when it succeeds, and what the removal leaves.
use p4_hmd.Base.{suc, ◌≡◌, subst, refl, sym, ◌∙◌, ap, arith}
use mathlib.Core.Bool.{xor}
use p4_hmd.Base.{
  Bool, true, false, not, ◌&&◌, ◌||◌, Bool-cases, inl, inr, ◌⊎◌, if_ind, if◌then◌else◌,
}
use p4_hmd.Driver.State.{Device, DisplayFlags, Rotation, rot_90}
use p4_hmd.Driver.Power.{p4_set_upside_down}
use p4_hmd.Driver.Lifecycle.{p4_sender_probe, p4_sender_remove, drainer_stop}
use p4_hmd.Driver.Vblank.{Vblank, p4_vblank_remove}
use p4_hmd.Pipe.Update.Orientation.{IsOriented}
use p4_hmd.Pipe.Update.{native_rotation}
use p4_hmd.Driver.Dpms.{drm_flip}
use p4_hmd.Pipe.Probe.{
  Card, Answers, set_defaults, p4_vblank_probe, p4_backlight_probe, p4_backlight_remove,
  with_device, err_sender, err_vblank, err_backlight, register_card, start_card, p4_probe,
  p4_remove,
}
use p4_hmd.Pipe.Probe.Sender.{SameOrientation, IsIdle, sender_started, sender_failed}

-- The timer and the interrupt of the vertical blank run exactly while it is enabled.
pub record Steady (v : Vblank) : Type 0 where
  pub timer : v.timer_on ≡ v.enabled
  pub irq : v.irq_on ≡ v.enabled

-- The disconnect timer and the works of the link were cancelled; the READY and COLD interrupts are not
-- disabled by that, so that what runs while the thread is stopped, `others`, may set them again.
abbrev pub Cancelled : (Device → Device) → Device → Type 0
Cancelled others s =
    (t : Device) × IsIdle t × ((s ≡ t) ⊎ (s ≡ record (others t) { drainer = false }))

-- Nothing of the driver runs: no thread of the drainer, no timer or interrupt of the vertical blank, no
-- disconnect timer, no work of the link; and userspace cannot reach the driver.
pub record IsUnused (card : Card) : Type 0 where
  pub thread : card.vblank.p4.drainer ≡ false
  pub timer : card.vblank.timer_on ≡ false
  pub irq : card.vblank.irq_on ≡ false
  pub closed : card.registered ≡ false
  pub idle : IsIdle card.vblank.p4

-- The drainer's thread does not run, nor do the timer and the interrupt of the vertical blank; the timer
-- and the works of the link were cancelled, and userspace cannot reach the driver.
pub record IsStopped (others : Device → Device) (card : Card) : Type 0 where
  pub thread : card.vblank.p4.drainer ≡ false
  pub timer : card.vblank.timer_on ≡ false
  pub irq : card.vblank.irq_on ≡ false
  pub closed : card.registered ≡ false
  pub cancelled : Cancelled others card.vblank.p4

IsUnused-IsStopped :
    (others : Device → Device) (card : Card) → IsUnused card → IsStopped others card
IsUnused-IsStopped others card h = record {
  thread = h.thread;
  timer = h.timer;
  irq = h.irq;
  closed = h.closed;
  cancelled = (card.vblank.p4, h.idle, inl refl);
}

-- The driver is at work, in an orientation that its flags agree with.
pub record IsStarted (card : Card) : Type 0 where
  pub thread : card.vblank.p4.drainer ≡ true
  pub open_to_users : card.registered ≡ true
  pub backlight : card.backlight ≡ true
  pub oriented : IsOriented card.vblank.p4

abbrev pub Probed : (Device → Device) → Bool → Card → Type 0
Probed others true card = IsStarted card
Probed others false card = IsStopped others card

xor-false : (b : Bool) → xor false b ≡ b
unfolding xor
xor-false true = refl
xor-false false = refl

not-false : {b : Bool} → not b ≡ false → b ≡ true
not-false {b} h = ground arith

p4_sender_remove-Cancelled :
    (others : Device → Device) (s : Device) → Cancelled others (p4_sender_remove others s)
unfolding p4_sender_remove drainer_stop
p4_sender_remove-Cancelled others s =
    let idle = record s {
      timer_armed = false;
      disconnect_queued = false;
      reconnect_queued = false;
    } in
    let woken = record idle { vsync = suc s.vsync; ready_completion = suc s.ready_completion } in
    if_ind (Cancelled others) s.drainer (record (others woken) { drainer = false }) idle
      (λ _. (woken, record { timer = refl; disconnect = refl; reconnect = refl }, inr refl))
      (λ _. (idle, record { timer = refl; disconnect = refl; reconnect = refl }, inl refl))

drainer_stop-stopped :
    (others : Device → Device) (s : Device) → (drainer_stop others s).drainer ≡ false
unfolding drainer_stop
drainer_stop-stopped others s =
    if_ind (λ (q : Device). q.drainer ≡ false) s.drainer _ _ (λ t. refl) (λ f. f)

p4_vblank_remove-stopped :
    (v : Vblank)
    → Steady v
    → ((p4_vblank_remove v).timer_on ≡ false)
      × ((p4_vblank_remove v).irq_on ≡ false)
      × ((p4_vblank_remove v).p4 ≡ v.p4)
unfolding p4_vblank_remove
p4_vblank_remove-stopped v h =
    if_ind (λ (q : Vblank). (q.timer_on ≡ false) × (q.irq_on ≡ false) × (q.p4 ≡ v.p4)) v.enabled _ _
      (λ t. (refl, refl, refl)) (λ f. (h.timer ∙ f, h.irq ∙ f, refl))

module _ (others : Device → Device) where
  -- Where the DRM shutdown and the end of the vertical blank leave the timer and the interrupt running
  -- exactly if the vertical blank is enabled: once the driver is removed, userspace cannot open it, and
  -- the drainer's thread and the timer and the interrupt of the vertical blank have stopped, whatever
  -- ran meanwhile. The disconnect timer and the two works of the link were cancelled; since the READY and
  -- COLD interrupts are not disabled, what runs while the thread stops may set them again, and no more.
  pub p4_remove-IsStopped :
      (shutdown vblank_off : Vblank → Vblank) (card : Card)
      → Steady (vblank_off (shutdown card.vblank))
      → IsStopped others (p4_remove others shutdown vblank_off card)
  unfolding p4_remove p4_backlight_remove p4_sender_remove
  p4_remove-IsStopped shutdown vblank_off card h =
      let v = vblank_off (shutdown card.vblank) in
      let p4 = p4_sender_remove others v.p4 in
      let (timer, irq, kept) =
        p4_vblank_remove-stopped (record v { p4 = p4 }) (record { timer = h.timer; irq = h.irq }) in
      record {
        thread = ap (λ (q : Device). q.drainer) kept ∙ drainer_stop-stopped others _;
        timer = timer;
        irq = irq;
        closed = refl;
        cancelled = subst (Cancelled others) (sym kept) (p4_sender_remove-Cancelled others v.p4);
      }

  err_sender-IsStopped :
      (card : Card)
      → card.vblank.timer_on ≡ false
      → card.vblank.irq_on ≡ false
      → card.registered ≡ false
      → IsStopped others (err_sender others card)
  unfolding err_sender p4_sender_remove
  err_sender-IsStopped card timer irq closed = record {
    thread = drainer_stop-stopped others _;
    timer = timer;
    irq = irq;
    closed = closed;
    cancelled = p4_sender_remove-Cancelled others card.vblank.p4;
  }

  err_vblank-IsStopped :
      (card : Card)
      → Steady card.vblank
      → card.registered ≡ false
      → IsStopped others (err_vblank others card)
  unfolding err_vblank
  err_vblank-IsStopped card h closed =
      let (timer, irq, kept) = p4_vblank_remove-stopped card.vblank h in
      err_sender-IsStopped (record card { vblank = p4_vblank_remove card.vblank }) timer irq closed

  -- What `register_card` is given: a running sender in the default orientation.
  record IsReady (card : Card) : Type 0 where
    thread : card.vblank.p4.drainer ≡ true
    steady : Steady card.vblank
    closed : card.registered ≡ false
    backlight : card.backlight ≡ true
    mode : card.vblank.p4.is_native ≡ false
    rotation : card.vblank.p4.rotation ≡ rot_90
    unflipped : card.vblank.p4.display_flags.upside_down ≡ false

  abbrev Outcome : Bool × Card → Type 0
  Outcome r = Probed others r.0 r.1

  flipped-IsOriented :
      (p4 : Device)
      → p4.is_native ≡ false
      → p4.rotation ≡ rot_90
      → p4.display_flags.upside_down ≡ false
      → (IsOriented (if p4.user_flip then p4_set_upside_down p4 true else p4))
        × ((if p4.user_flip then p4_set_upside_down p4 true else p4).drainer ≡ p4.drainer)
  unfolding p4_set_upside_down
  flipped-IsOriented p4 mode rotation unflipped =
      let flip =
        ap (λ (r : Rotation). xor (drm_flip r) p4.user_flip) rotation ∙ xor-false p4.user_flip in
      let native = mode ∙ sym (ap native_rotation rotation) in
      if_ind (λ (q : Device). (IsOriented q) × (q.drainer ≡ p4.drainer)) p4.user_flip _ _
        (λ t. (record { mode = native; flip = sym (flip ∙ t) }, refl))
        (λ f. (record { mode = native; flip = unflipped ∙ sym (flip ∙ f) }, refl))

  register_card-Outcome :
      (a : Answers) (card : Card) → IsReady card → Outcome (register_card others a card)
  unfolding register_card err_backlight p4_backlight_remove
  register_card-Outcome a card r =
      let undone = err_vblank-IsStopped card r.steady r.closed in
      let p4 = card.vblank.p4 in
      let (oriented, thread) = flipped-IsOriented p4 r.mode r.rotation r.unflipped in
      if_ind Outcome (not a.mode_config_ready) _ _ (λ t. undone)
        (λ f.
          if_ind Outcome (not a.connector_ready) _ _ (λ t. undone)
            (λ f.
              if_ind Outcome (not a.pipe_ready) _ _ (λ t. undone)
                (λ f.
                  if_ind Outcome (not a.vblank_ready) _ _ (λ t. undone)
                    (λ f.
                      if_ind Outcome (not a.drm_registered) _ _ (λ t. undone)
                        (λ f. record {
                          thread = thread ∙ r.thread;
                          open_to_users = refl;
                          backlight = r.backlight;
                          oriented = oriented;
                        })))))

  -- A card whose device has the defaults of `p4_probe`, with the flags of a new device.
  record IsFresh (card : Card) : Type 0 where
    stopped : IsUnused card
    mode : card.vblank.p4.is_native ≡ false
    rotation : card.vblank.p4.rotation ≡ rot_90
    unflipped : card.vblank.p4.display_flags.upside_down ≡ false

  -- `start_card` after the sender's probe.
  after_sender :
      (a : Answers) (card : Card) (probed : Bool) (p4 : Device)
      → IsFresh card
      → p4.drainer ≡ probed
      → (probed ≡ false → IsIdle p4)
      → SameOrientation card.vblank.p4 p4
      → let card1 = with_device p4 card in
        let (vblank_ok, v) = p4_vblank_probe a.vblank_acquired card1.vblank in
        let card2 = record card1 { vblank = v } in
        let (backlight_ok, card3) = p4_backlight_probe a.backlight_registered card2 in
        Outcome (
          if not probed
          then (false, card1)
          else (if not vblank_ok
              then (false, err_sender others card2)
              else (if not backlight_ok
                  then (false, err_vblank others card3)
                  else register_card others a card3)))
  unfolding p4_vblank_probe p4_backlight_probe
  after_sender a card false p4 h d k o = record {
    thread = d;
    timer = h.stopped.timer;
    irq = h.stopped.irq;
    closed = h.stopped.closed;
    cancelled = (p4, k refl, inl refl);
  }
  after_sender a card true p4 h d k o =
      if_ind Outcome (not a.vblank_acquired) _ _
        (λ t. err_sender-IsStopped _ refl refl h.stopped.closed)
        (λ f.
          if_ind Outcome (not a.backlight_registered) _ _
            (λ t. err_vblank-IsStopped _ (record { timer = refl; irq = refl }) h.stopped.closed)
            (λ g. register_card-Outcome a _ (record {
              thread = d;
              steady = record { timer = refl; irq = refl };
              closed = h.stopped.closed;
              backlight = not-false g;
              mode = o.mode ∙ h.mode;
              rotation = o.rotation ∙ h.rotation;
              unflipped = ap (λ (q : DisplayFlags). q.upside_down) o.flags ∙ h.unflipped;
            })))

  start_card-Outcome :
      (a : Answers) (card : Card) → IsFresh card → Outcome (start_card others a card)
  unfolding start_card register_card
  start_card-Outcome a card h = elim (Bool-cases a.sender_acquired) [
    | inl t ↦
        let p4 = card.vblank.p4 in
        let r =
          p4_sender_probe a.clock a.now a.after a.handshake a.started a.ready a.ready_after p4 in
        let (d, o) =
          sender_started a.clock a.now a.after a.handshake a.started a.ready a.ready_after p4 in
        let k =
          sender_failed a.clock a.now a.after a.handshake a.started a.ready a.ready_after p4 in
        rw t (after_sender a card r.0 r.1 h d k o)
    | inr f ↦ rw f (
        after_sender a card false card.vblank.p4 h h.stopped.thread (λ _. h.stopped.idle)
          (record { flags = refl; rotation = refl; mode = refl; user_flip = refl }))
  ]

  -- On a card on which nothing of the driver runs: if the probe returns 0, the thread runs, the backlight
  -- is there, userspace can open the card, and the flip of the display is the user's. If it returns an
  -- error, after whichever step, the thread does not run, nor do the timer and the interrupt of the
  -- vertical blank, and userspace cannot open the card. The disconnect timer and the two works of the
  -- link do not run either, but for what runs while the thread stops, since the READY and COLD interrupts
  -- may be enabled then.
  pub p4_probe-Probed :
      (a : Answers) (card : Card)
      → IsUnused card
      → Probed others (p4_probe others a card).0 (p4_probe others a card).1
  unfolding p4_probe set_defaults
  p4_probe-Probed a card h =
      let card1 = with_device (set_defaults a.upside_down card.vblank.p4) card in
      let still : IsUnused card1 = record {
        thread = h.thread;
        timer = h.timer;
        irq = h.irq;
        closed = h.closed;
        idle = record {
          timer = h.idle.timer;
          disconnect = h.idle.disconnect;
          reconnect = h.idle.reconnect;
        };
      } in
      if_ind Outcome (not (a.dma_mask || a.dma_coerced)) _ _ (λ t. IsUnused-IsStopped others card h)
        (λ f.
          if_ind Outcome (not (a.spi_set_up && a.allocated)) _ _
            (λ t. IsUnused-IsStopped others card h)
            (λ f.
              if_ind Outcome (not (a.sysfs_added && a.buffers)) _ _
                (λ t. IsUnused-IsStopped others card1 still)
                (λ f.
                  start_card-Outcome a card1
                    (record { stopped = still; mode = refl; rotation = refl; unflipped = refl }))))
