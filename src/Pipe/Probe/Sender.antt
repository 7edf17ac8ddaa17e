-- ===== src/Pipe/Probe/Sender.antt =====
-- What the sender's probe leaves alone, and when its thread runs.
use p4_hmd.Base.{ℕ, ◌≡◌, refl}
use p4_hmd.Base.{Bool, true, false, if◌then◌else◌, if_ind, ◌||◌}
use p4_hmd.Driver.State.{Device, Clock, Handshake}
use p4_hmd.Driver.Link.{
  go_online, go_offline, hw_irq_enable, hw_irq_disable, hw_reset_device, hw_verify_ready,
  wait_for_ready, reset_device,
}
use p4_hmd.Driver.Drainer.{drainer_thread}
use p4_hmd.Driver.Lifecycle.{new_sender, p4_sender_probe, drainer_start}

-- What the sender leaves alone while it starts.
pub record SameOrientation (s t : Device) : Type 0 where
  pub flags : t.display_flags ≡ s.display_flags
  pub rotation : t.rotation ≡ s.rotation
  pub mode : t.is_native ≡ s.is_native
  pub user_flip : t.user_flip ≡ s.user_flip

reset_device-SameOrientation :
    (clock : Clock) (now after : ℕ) (h : Handshake) (s : Device)
    → SameOrientation s (reset_device clock now after h s).1
unfolding reset_device hw_verify_ready wait_for_ready hw_reset_device go_offline
reset_device-SameOrientation clock now after h s = record {
  flags = refl;
  rotation = refl;
  mode = refl;
  user_flip = refl;
}

go_online_if :
    (ok : Bool) (s t : Device)
    → SameOrientation s t
    → SameOrientation s (if ok then go_online t else t)
unfolding go_online
go_online_if true s t h = record {
  flags = h.flags;
  rotation = h.rotation;
  mode = h.mode;
  user_flip = h.user_flip;
}
go_online_if false s t h = h

-- The thread runs exactly if the sender's probe succeeds.
pub sender_started :
    (clock : Clock) (now after : ℕ) (h : Handshake) (started ready ready_after : Bool) (s : Device)
    → let r = p4_sender_probe clock now after h started ready ready_after s in
      (r.1.drainer ≡ r.0) × SameOrientation s r.1
unfolding p4_sender_probe drainer_start drainer_thread hw_irq_enable hw_irq_disable
sender_started clock now after h true ready ready_after s =
    let fresh = new_sender s in
    let r = reset_device clock now after h (hw_irq_enable fresh) in
    let kept =
      go_online_if r.0 (hw_irq_enable fresh) r.1
        (reset_device-SameOrientation clock now after h (hw_irq_enable fresh)) in
    (
      refl,
      record {
        flags = kept.flags;
        rotation = kept.rotation;
        mode = kept.mode;
        user_flip = kept.user_flip;
      },
    )
sender_started clock now after h false ready ready_after s =
    let fresh = new_sender s in
    let r = reset_device clock now after h (hw_irq_enable fresh) in
    let kept =
      go_online_if r.0 (hw_irq_enable fresh) r.1
        (reset_device-SameOrientation clock now after h (hw_irq_enable fresh)) in
    (
      refl,
      record {
        flags = kept.flags;
        rotation = kept.rotation;
        mode = kept.mode;
        user_flip = kept.user_flip;
      },
    )

-- The disconnect timer does not run, and neither of the two works is queued.
pub record IsIdle (s : Device) : Type 0 where
  pub timer : s.timer_armed ≡ false
  pub disconnect : s.disconnect_queued ≡ false
  pub reconnect : s.reconnect_queued ≡ false

pub sender_failed :
    (clock : Clock) (now after : ℕ) (h : Handshake) (started ready ready_after : Bool) (s : Device)
    → let r = p4_sender_probe clock now after h started ready ready_after s in
      r.0 ≡ false → IsIdle r.1
unfolding p4_sender_probe drainer_start hw_irq_disable hw_irq_enable reset_device hw_verify_ready
    wait_for_ready hw_reset_device go_offline go_online
sender_failed clock now after h true ready ready_after s e = absurd (cc)
sender_failed clock now after h false ready ready_after s e =
    let s1 = (reset_device clock now after h (hw_irq_enable (new_sender s))).1 in
    record {
      timer = refl;
      disconnect = refl;
      reconnect =
          if_ind (λ (q : Device). q.reconnect_queued ≡ false)
            (h.ready_first || (h.ready_again || h.signalled)) (go_online s1) s1 (λ _. refl)
            (λ _. refl);
    }
