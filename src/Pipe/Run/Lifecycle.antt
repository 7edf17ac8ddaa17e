-- ===== src/Pipe/Run/Lifecycle.antt =====
-- The power operations of the driver keep the invariant.
use p4_hmd.Base.{ℕ, ◌≡◌, refl, sym, subst, Bool, true, false, ◌||◌}
use p4_hmd.Base.{if_ind, if◌then◌else◌}
use p4_hmd.Driver.State.{
  Device, Clock, Handshake, off, blank, normal, unblank, normal_blank, vsync_suspend, hsync_suspend,
  powerdown, BlankState,
}
use p4_hmd.Driver.Power.{p4_set_power_mode}
use p4_hmd.Driver.Link.{
  go_offline, go_online, hw_irq_enable, hw_irq_disable, hw_reset_device, hw_verify_ready,
  wait_for_ready, reset_device, fpga_sleep, fpga_wake,
}
use p4_hmd.Driver.Drainer.{drainer_thread}
use p4_hmd.Driver.Lifecycle.{
  drainer_start, drainer_stop, wait_send_done, p4_sender_suspend, refresh_if_cold, p4_sender_resume,
  p4_sender_powerdown, p4_sender_powerup,
}
use p4_hmd.Driver.Dpms.{
  DpmsMode, dpms_to_blank, same_blank, enter_blank, p4_dpms_set, p4_suspend, p4_resume,
}
use p4_hmd.Pipe.Run.Invariant.{
  Invariant, view, IsValid, Invariant-online, p4_set_power_mode-IsValid,
}

-- What runs while a call waits keeps the invariant.
abbrev pub Keeps : (Device → Device) → Type 0
Keeps f = (t : Device) → IsValid t → IsValid (f t)

go_offline-IsValid : (s : Device) → IsValid s → IsValid (go_offline s)
unfolding go_offline
go_offline-IsValid s h = Invariant-online (view s) false h

wait_send_done-IsValid :
    (others : Device → Device) (s : Device)
    → Keeps others
    → IsValid s
    → IsValid (wait_send_done others s)
unfolding wait_send_done
wait_send_done-IsValid others s k h = k _ h

drainer_stop-IsValid :
    (others : Device → Device) (s : Device)
    → Keeps others
    → IsValid s
    → IsValid (drainer_stop others s)
unfolding drainer_stop
drainer_stop-IsValid others s k h = if_ind IsValid s.drainer _ _ (λ _. k _ h) (λ _. h)

refresh_if_cold-IsValid : (cold : Bool) (s : Device) → IsValid s → IsValid (refresh_if_cold cold s)
unfolding refresh_if_cold
refresh_if_cold-IsValid true s h = Invariant-online (view s) s.device_online h
refresh_if_cold-IsValid false s h = h

refresh_if_cold-full :
    (cold : Bool) (s : Device) → s.force_full ≡ true → (refresh_if_cold cold s).force_full ≡ true
unfolding refresh_if_cold
refresh_if_cold-full true s h = refl
refresh_if_cold-full false s h = h

-- A start with a full refresh due.
drainer_start-IsValid :
    (started ready : Bool) (s : Device)
    → s.force_full ≡ true
    → IsValid s
    → IsValid (drainer_start started ready s).1
unfolding drainer_start drainer_thread
drainer_start-IsValid true ready s full h =
    subst (λ (b : Bool). Invariant (record (view s) { online = ready; force_full = b })) (sym full)
      (Invariant-online (view s) ready h)
drainer_start-IsValid false ready s full h = h

-- The state of `p4_sender_resume` before the drainer is started.
abbrev before_start : Clock → ℕ → ℕ → Handshake → Bool → Device → Device
before_start clock now after h cold s =
    let (verified, s1) = reset_device clock now after h (hw_irq_enable (fpga_wake s)) in
    if verified then refresh_if_cold cold (go_online s1) else s1

before_start-IsValid :
    (clock : Clock) (now after : ℕ) (h : Handshake) (cold : Bool) (s : Device)
    → IsValid s
    → IsValid (before_start clock now after h cold s)
      × ((before_start clock now after h cold s).force_full ≡ true)
unfolding reset_device hw_irq_enable fpga_wake go_offline go_online hw_reset_device hw_verify_ready
    wait_for_ready
before_start-IsValid clock now after h cold s v =
    let s1 = (reset_device clock now after h (hw_irq_enable (fpga_wake s))).1 in
    let offline : IsValid s1 = Invariant-online (view s) false v in
    let online : IsValid (go_online s1) = Invariant-online (view s) true v in
    if_ind (λ (q : Device). IsValid q × (q.force_full ≡ true))
      (h.ready_first || (h.ready_again || h.signalled)) (refresh_if_cold cold (go_online s1)) s1
      (λ _. (
        refresh_if_cold-IsValid cold (go_online s1) online,
        refresh_if_cold-full cold (go_online s1) refl,
      ))
      (λ _. (offline, refl))

p4_sender_resume-IsValid :
    (clock : Clock) (now after : ℕ) (h : Handshake) (cold started ready : Bool) (s : Device)
    → IsValid s
    → IsValid (p4_sender_resume clock now after h cold started ready s).1
unfolding p4_sender_resume hw_irq_disable
p4_sender_resume-IsValid clock now after h cold started ready s v =
    let (ok, full) = before_start-IsValid clock now after h cold s v in
    let k = drainer_start-IsValid started ready (before_start clock now after h cold s) full ok in
    if_ind (λ (q : Bool × Device). IsValid q.1)
      (drainer_start started ready (before_start clock now after h cold s)).0 _ _ (λ _. k) (λ _. k)

pub p4_resume-IsValid :
    (drm_resume : Device → Bool × Device) (clock : Clock) (now after : ℕ) (h : Handshake)
    (cold started ready : Bool) (s : Device)
    → Keeps (λ t. (drm_resume t).1)
    → IsValid s
    → IsValid (p4_resume drm_resume clock now after h cold started ready s).1
unfolding p4_resume
p4_resume-IsValid drm_resume clock now after h cold started ready s k v =
    let r = p4_sender_resume clock now after h cold started ready s in
    let woken = p4_sender_resume-IsValid clock now after h cold started ready s v in
    if_ind (λ (q : Bool × Device). IsValid q.1) r.0 (drm_resume (p4_set_power_mode r.1 normal))
      (false, r.1) (λ _. k _ (p4_set_power_mode-IsValid r.1 normal woken)) (λ _. woken)

p4_sender_suspend-IsValid :
    (others stopping : Device → Device) (s : Device)
    → Keeps others
    → Keeps stopping
    → IsValid s
    → IsValid (p4_sender_suspend others stopping s)
unfolding p4_sender_suspend fpga_sleep hw_irq_disable
p4_sender_suspend-IsValid others stopping s ko ks v =
    drainer_stop-IsValid stopping _ ks
      (go_offline-IsValid _ (wait_send_done-IsValid others (record s { enabled = false }) ko v))

pub p4_suspend-IsValid :
    (drm_suspend : Device → Bool × Device) (others stopping : Device → Device) (s : Device)
    → Keeps (λ t. (drm_suspend t).1)
    → Keeps others
    → Keeps stopping
    → IsValid s
    → IsValid (p4_suspend drm_suspend others stopping s).1
unfolding p4_suspend
p4_suspend-IsValid drm_suspend others stopping s kd ko ks v =
    let r = drm_suspend (p4_set_power_mode s off) in
    let k = kd _ (p4_set_power_mode-IsValid s off v) in
    if_ind (λ (q : Bool × Device). IsValid q.1) r.0 (true, p4_sender_suspend others stopping r.1)
      (false, p4_set_power_mode r.1 normal)
      (λ _. p4_sender_suspend-IsValid others stopping r.1 ko ks k)
      (λ _. p4_set_power_mode-IsValid r.1 normal k)

powerup-IsValid : (cold : Bool) (s : Device) → IsValid s → IsValid (p4_sender_powerup cold s)
unfolding p4_sender_powerup fpga_wake
powerup-IsValid cold s h =
    if_ind IsValid s.enabled _ _ (λ _. h) (λ _. refresh_if_cold-IsValid cold _ h)

powerdown-IsValid :
    (others : Device → Device) (s : Device)
    → Keeps others
    → IsValid s
    → IsValid (p4_sender_powerdown others s)
unfolding p4_sender_powerdown fpga_sleep
powerdown-IsValid others s k h =
    if_ind IsValid s.enabled _ _
      (λ _. wait_send_done-IsValid others (record s { enabled = false }) k h) (λ _. h)

enter_blank-IsValid :
    (cold : Bool) (others : Device → Device) (b : BlankState) (s : Device)
    → Keeps others
    → IsValid s
    → IsValid (enter_blank cold others b s)
enter_blank-IsValid cold others unblank s k h =
    p4_set_power_mode-IsValid _ normal (powerup-IsValid cold s h)
enter_blank-IsValid cold others normal_blank s k h = p4_set_power_mode-IsValid s blank h
enter_blank-IsValid cold others vsync_suspend s k h = p4_set_power_mode-IsValid s off h
enter_blank-IsValid cold others hsync_suspend s k h = p4_set_power_mode-IsValid s off h
enter_blank-IsValid cold others powerdown s k h =
    powerdown-IsValid others _ k (p4_set_power_mode-IsValid s off h)

pub p4_dpms_set-IsValid :
    (cold : Bool) (others : Device → Device) (mode : DpmsMode) (s : Device)
    → Keeps others
    → IsValid s
    → IsValid (p4_dpms_set cold others mode s)
unfolding p4_dpms_set
p4_dpms_set-IsValid cold others mode s k h =
    if_ind IsValid (same_blank (dpms_to_blank mode) s.blank_state) _ _ (λ _. h)
      (λ _. enter_blank-IsValid cold others (dpms_to_blank mode) s k h)
