-- ===== src/Driver/Link/Laws.antt =====
-- Interrupts, timer and works of the link in any order: what a display that comes back is sent, and
-- that each change of the connection is announced.
use p4_hmd.Base.{ℕ, suc, ◌+◌, ◌%◌, ◌≡◌, refl, ◌∙◌, arith, Bool, true, false, not}
use p4_hmd.Base.{if_ind, sym, ap, subst, ◌&&◌, ◌||◌, ◌==◌, []}
use p4_hmd.Update.Packet.{pkt_init_flags_only, pkt_is_flags_only}
use p4_hmd.Driver.State.{flags_byte}
use p4_hmd.Driver.Buffer.{buf_is_empty, buf_reset, buf_emit}
use p4_hmd.Driver.Frame.{encode_frame}
use p4_hmd.Driver.Drainer.{ChunkEnv, queue_flags, send_buffer, fill_buffer, drainer_round}
use p4_hmd.Driver.State.{Device, Clock, Handshake, bit}
use p4_hmd.Driver.Link.{
  ready_irq_handler, cold_irq_handler, disconnect_timer_fn, disconnect_work_fn, reconnect_work_fn,
  reconnect_after, announce_online, hw_reset_device, hw_verify_ready, wait_for_ready, set_connected,
}

-- A step of the link.
pub data LinkStep : Device → Device → Type 0 where
  ready_edge :
      (clock : Clock) (now : ℕ) (ready_high : Bool) (s : Device)
      → LinkStep s (ready_irq_handler clock now ready_high s)
  cold_edge : (s : Device) → LinkStep s (cold_irq_handler s)
  timer_expiry : (s : Device) → LinkStep s (disconnect_timer_fn s)
  disconnect : (now : ℕ) (s : Device) → LinkStep s (disconnect_work_fn now s)
  reconnect : (now : ℕ) (h : Handshake) (s : Device) → LinkStep s (reconnect_work_fn now h s)

-- What may follow a disconnection: steps of the link, and rounds of the drainer as long as the device is
-- offline.
pub data LinkRun : Device → Device → Type 0 where
  stay : (s : Device) → LinkRun s s
  go : (s t u : Device) → LinkStep s t → LinkRun t u → LinkRun s u
  idle_round :
      (ready : Bool) (env : ℕ → ChunkEnv) (s u : Device)
      → s.device_online ≡ false
      → LinkRun (drainer_round ready env s) u
      → LinkRun s u

-- A full refresh is due, and the frame counts as dirty.
pub record RefreshDue (s : Device) : Type 0 where
  pub full : s.force_full ≡ true
  pub dirty : s.dirty ≡ true

-- Whether the count of announcements tells the connection, given the count and the connection of
-- before.
abbrev pub Announced : Device → Device → Type 0
Announced s s' =
    (s'.hotplug_events + bit s'.display_connected) % 2
    ≡ (s.hotplug_events + bit s.display_connected) % 2

reconnect_after-RefreshDue :
    (ready : Bool) (s : Device) → RefreshDue s → RefreshDue (reconnect_after ready s)
unfolding reconnect_after announce_online set_connected
reconnect_after-RefreshDue false s h = h
reconnect_after-RefreshDue true s h =
    if_ind RefreshDue s.display_connected _ _ (λ _. record { full = refl; dirty = refl })
      (λ _. record { full = refl; dirty = refl })

disconnect_work_fn-RefreshDue : (now : ℕ) (s : Device) → RefreshDue (disconnect_work_fn now s)
unfolding disconnect_work_fn hw_reset_device set_connected
disconnect_work_fn-RefreshDue now s =
    if_ind RefreshDue s.display_connected _ _ (λ _. record { full = refl; dirty = refl })
      (λ _. record { full = refl; dirty = refl })

step-RefreshDue : {s t : Device} → LinkStep s t → RefreshDue s → RefreshDue t
unfolding ready_irq_handler cold_irq_handler disconnect_timer_fn reconnect_work_fn hw_reset_device
    hw_verify_ready wait_for_ready
step-RefreshDue (ready_edge clock now true s) h = record { full = h.full; dirty = h.dirty }
step-RefreshDue (ready_edge clock now false s) h = record { full = h.full; dirty = h.dirty }
step-RefreshDue (cold_edge s) h =
    if_ind RefreshDue s.device_online _ _ (λ _. record { full = h.full; dirty = h.dirty }) (λ _. h)
step-RefreshDue (timer_expiry s) h = record { full = h.full; dirty = h.dirty }
step-RefreshDue (disconnect now s) h = disconnect_work_fn-RefreshDue now s
step-RefreshDue (reconnect now k s) h =
    if_ind RefreshDue s.device_online _ _ (λ _. record { full = h.full; dirty = h.dirty })
      (λ offline. reconnect_after-RefreshDue _ _ (record { full = h.full; dirty = h.dirty }))

-- A round of the drainer while the device is offline empties the buffer, and does no more.
abbrev rested : Device → Device
rested s = record s { vsync = 0; buf = []; buf_pos = 0; send_done = suc s.send_done }

nothing_filled : (s : Device) → s.device_online ≡ false → fill_buffer s ≡ s
unfolding fill_buffer queue_flags buf_emit encode_frame pkt_is_flags_only pkt_init_flags_only
nothing_filled s off =
    let no_frame =
      if_ind (λ (q : Device). q ≡ s) s.hw_vsync (encode_frame s).1 s
        (λ _.
          if_ind (λ (q : Bool × Device). q.1 ≡ s) (not s.device_online) _ _ (λ _. refl)
            (λ on. absurd (ground (arith, off))))
        (λ _. refl) in
    let pkt = pkt_init_flags_only (flags_byte s.display_flags) in
    ap queue_flags no_frame
    ∙ if_ind (λ (q : Device). q ≡ s)
        (buf_is_empty s && not (flags_byte s.display_flags == s.last_sent_flags)) (buf_emit pkt s).1
        s
        (λ _.
          if_ind (λ (q : Bool × Device). q.1 ≡ s) (not s.enabled || not s.device_online) _ _
            (λ _. refl) (λ on. absurd (ground (arith, off))))
        (λ _. refl)

drainer_round_offline :
    (ready : Bool) (env : ℕ → ChunkEnv) (s : Device)
    → s.device_online ≡ false
    → drainer_round ready env s ≡ rested s
unfolding drainer_round send_buffer buf_reset
drainer_round_offline ready env s off =
    ap (send_buffer ready env) (nothing_filled (record s { vsync = 0 }) off)
    ∙ if_ind (λ (q : Device). q ≡ rested s)
        (buf_is_empty (record s { vsync = 0 }) || not s.device_online || not ready) _ _ (λ _. refl)
        (λ on. absurd (ground (arith, off)))

connection_toggles :
    (b : Bool) (n : ℕ) (c : Bool) → c ≡ not b → (suc n + bit b) % 2 ≡ (n + bit c) % 2
connection_toggles true n c e = rw e (omega arith)
connection_toggles false n c e = rw e (omega arith)

reconnect_after-Announced : (ready : Bool) (s : Device) → Announced s (reconnect_after ready s)
unfolding reconnect_after announce_online set_connected
reconnect_after-Announced false s = refl
reconnect_after-Announced true s =
    if_ind (Announced s) s.display_connected _ _ (λ _. refl)
      (λ was. connection_toggles true s.hotplug_events s.display_connected was)

step-Announced : {s t : Device} → LinkStep s t → Announced s t
unfolding ready_irq_handler cold_irq_handler disconnect_timer_fn disconnect_work_fn
    reconnect_work_fn hw_reset_device hw_verify_ready wait_for_ready set_connected
step-Announced (ready_edge clock now true s) = refl
step-Announced (ready_edge clock now false s) = refl
step-Announced (cold_edge s) = if_ind (Announced s) s.device_online _ _ (λ _. refl) (λ _. refl)
step-Announced (timer_expiry s) = refl
step-Announced (disconnect now s) =
    if_ind (Announced s) s.display_connected _ _
      (λ was. connection_toggles false s.hotplug_events s.display_connected was) (λ _. refl)
step-Announced (reconnect now k s) =
    if_ind (Announced s) s.device_online _ _ (λ _. refl) (λ _. reconnect_after-Announced _ _)

run-RefreshDue : {s t : Device} → LinkRun s t → RefreshDue s → RefreshDue t × Announced s t
run-RefreshDue (stay s) h = (h, refl)
run-RefreshDue (go s t u one more) h =
    let rest = run-RefreshDue more (step-RefreshDue one h) in (rest.0, rest.1 ∙ step-Announced one)
run-RefreshDue (idle_round ready env s u off more) h =
    let e = drainer_round_offline ready env s off in
    let same : RefreshDue (rested s) = record { full = h.full; dirty = h.dirty } in
    let rest = run-RefreshDue more (subst RefreshDue (sym e) same) in
    (rest.0, rest.1 ∙ ap (λ (q : Device). (q.hotplug_events + bit q.display_connected) % 2) e)

-- After the work of a disconnection, however interrupts, timer, works, and rounds of the drainer while
-- the device is offline follow one another: a full refresh is due and the frame is dirty; and the
-- connection known to DRM has changed as often as hotplug events were sent, up to pairs.
pub LinkRun-RefreshDue :
    (now : ℕ) (s : Device) {t : Device}
    → LinkRun (disconnect_work_fn now s) t
    → RefreshDue t × Announced s t
LinkRun-RefreshDue now s more =
    let rest = run-RefreshDue more (disconnect_work_fn-RefreshDue now s) in
    (rest.0, rest.1 ∙ step-Announced (disconnect now s))
