-- ===== src/Pipe/Run/Start.antt =====
-- A device that was probed satisfies the invariant.
use p4_hmd.Base.{
  ℕ, ◌≡◌, refl, sym, ◌∙◌, ap, subst, arith, Bool, true, false, not, ◌&&◌, ◌||◌, Bool-cases, inl,
  inr,
}
use mathlib.Core.Bool.{xor}
use p4_hmd.Base.{[], if_ind, if◌then◌else◌}
use p4_hmd.Driver.State.{Device, Clock, Handshake, rot_90}
use p4_hmd.Driver.Power.{p4_set_upside_down}
use p4_hmd.Driver.Link.{
  go_offline, go_online, hw_irq_enable, hw_irq_disable, hw_reset_device, hw_verify_ready,
  wait_for_ready, reset_device,
}
use p4_hmd.Driver.Drainer.{drainer_thread}
use p4_hmd.Driver.Lifecycle.{new_sender, drainer_start, p4_sender_probe}
use p4_hmd.Driver.Dpms.{drm_flip}
use p4_hmd.Pipe.Probe.{
  Card, Answers, set_defaults, p4_vblank_probe, p4_backlight_probe, with_device, register_card,
  start_card, p4_probe,
}
use p4_hmd.Pipe.Probe.Sender.{sender_started}
use p4_hmd.Pipe.Run.Invariant.{Invariant, View, view, IsValid, Invariant-online}

-- The invariant for the time in which the user's flip is not yet shown.
abbrev Unflipped : Device → Type 0
Unflipped s = Invariant (record (view s) { user_flip = false })

p4_sender_probe-Unflipped :
    (clock : Clock) (now after : ℕ) (h : Handshake) (started ready ready_after : Bool) (s : Device)
    → Unflipped (record s { buf = []; buf_pos = 0; force_full = true })
    → Unflipped (p4_sender_probe clock now after h started ready ready_after s).1
unfolding p4_sender_probe drainer_start drainer_thread reset_device hw_irq_enable hw_irq_disable
    go_offline go_online hw_reset_device hw_verify_ready wait_for_ready
p4_sender_probe-Unflipped clock now after h started ready ready_after s v =
    let s1 = (reset_device clock now after h (hw_irq_enable (new_sender s))).1 in
    let verified = h.ready_first || (h.ready_again || h.signalled) in
    let x : Device = if verified then go_online s1 else s1 in
    let base : View = record (view (record s { buf = []; buf_pos = 0; force_full = true })) {
      user_flip = false;
    } in
    let (k, full) =
      if_ind (λ (q : Device). Unflipped q × (q.force_full ≡ true)) verified (go_online s1) s1
        (λ _. (Invariant-online base true v, refl)) (λ _. (Invariant-online base false v, refl)) in
    let online : Unflipped (record x { device_online = ready }) =
      subst
        (λ (b : Bool).
          Invariant (record (view x) { user_flip = false; online = ready; force_full = b }))
        (sym full) (Invariant-online (record (view x) { user_flip = false }) ready k) in
    elim started
      as (λ (b : Bool). Unflipped (p4_sender_probe clock now after h b ready ready_after s).1) [
        | true ↦ online
        | false ↦ k
      ]

-- A result is a valid device if it is a success.
record Starts (r : Bool × Card) : Type 0 where
  valid : r.0 ≡ true → IsValid r.1.vblank.p4

unless_failed :
    (b : Bool) (card : Card) (r : Bool × Card)
    → (b ≡ false → Starts r)
    → Starts (if b then (false, card) else r)
unless_failed true card r h = record { valid = λ e. absurd (cc) }
unless_failed false card r h = h refl

-- The flip of the user is shown when the card is registered.
flipped-IsValid :
    (p4 : Device)
    → p4.rotation ≡ rot_90
    → Unflipped p4
    → IsValid (if p4.user_flip then p4_set_upside_down p4 true else p4)
unfolding p4_set_upside_down xor
flipped-IsValid p4 r h =
    let turned : drm_flip p4.rotation ≡ false = ap drm_flip r in
    if_ind (λ (q : Device). IsValid q) p4.user_flip _ _
      (λ t. record {
        exclusive = h.exclusive;
        mode = h.mode;
        flip = rw (turned, t) refl;
        target = h.target;
        refresh = h.refresh;
        room = h.room;
        placed = h.placed;
        frame = h.frame;
        candidate = h.candidate;
        reference = h.reference;
      })
      (λ f. subst (λ (b : Bool). Invariant (record (view p4) { user_flip = b })) (sym f) h)

module _ (others : Device → Device) where
  register_card-Starts :
      (a : Answers) (card : Card)
      → card.vblank.p4.rotation ≡ rot_90
      → Unflipped card.vblank.p4
      → Starts (register_card others a card)
  unfolding register_card
  register_card-Starts a card r h = unless_failed (not a.mode_config_ready) _ _ (λ _.
      unless_failed (not a.connector_ready) _ _ (λ _. unless_failed (not a.pipe_ready) _ _ (λ _.
        unless_failed (not a.vblank_ready) _ _ (λ _.
          unless_failed (not a.drm_registered) _ _
            (λ _. record { valid = λ _. flipped-IsValid card.vblank.p4 r h })))))

  start_card-Starts :
      (a : Answers) (card : Card)
      → card.vblank.p4.rotation ≡ rot_90
      → Unflipped (record (card.vblank.p4) { buf = []; buf_pos = 0; force_full = true })
      → Starts (start_card others a card)
  unfolding start_card p4_vblank_probe p4_backlight_probe register_card
  start_card-Starts a card r h =
      let s = card.vblank.p4 in
      let probe =
        p4_sender_probe a.clock a.now a.after a.handshake a.started a.ready a.ready_after s in
      let kept =
        (sender_started a.clock a.now a.after a.handshake a.started a.ready a.ready_after s).1 in
      let v =
        p4_sender_probe-Unflipped a.clock a.now a.after a.handshake a.started a.ready a.ready_after
          s h in
      elim (Bool-cases a.sender_acquired) [
        | inl t ↦ rw t (
            unless_failed (not probe.0) _ _ (λ _. unless_failed (not a.vblank_acquired) _ _ (λ _.
              unless_failed (not a.backlight_registered) _ _
                (λ _. register_card-Starts a _ (kept.rotation ∙ r) v))))
        | inr f ↦ rw f (record { valid = λ e. absurd (cc) })
      ]

-- A device satisfies the invariant when its probe succeeds, whatever the kernel's calls and the READY pin
-- answer.
pub p4_probe-IsValid :
    (others : Device → Device) (a : Answers) (card : Card)
    → (p4_probe others a card).0 ≡ true
    → IsValid (p4_probe others a card).1.vblank.p4
unfolding p4_probe set_defaults xor
p4_probe-IsValid others a card found =
    let fresh = with_device (set_defaults a.upside_down card.vblank.p4) card in
    let starts : Starts (p4_probe others a card) =
      unless_failed (not (a.dma_mask || a.dma_coerced)) _ _ (λ _.
        unless_failed (not (a.spi_set_up && a.allocated)) _ _ (λ _.
          unless_failed (not (a.sysfs_added && a.buffers)) _ _ (λ _.
            start_card-Starts others a fresh refl (record {
              exclusive = omega arith;
              mode = refl;
              flip = refl;
              target = refl;
              refresh = λ _. refl;
              room = omega arith;
              placed = omega arith;
              frame = λ j. omega arith;
              candidate = λ j. omega arith;
              reference = λ j. omega arith;
            })))) in
    starts.valid found
