-- ===== src/Driver/Lifecycle.antt =====
-- Start, stop, sleep and wake-up of the sender in kmod/sender.c. What other threads do while a
-- function waits for them is the argument `others`.
use p4_hmd.Base.{ℕ, suc, Bool, true, false, not, ◌&&◌, if◌then◌else◌, [], ◌||◌}
use p4_hmd.Driver.State.{Device, Clock, Handshake}
use p4_hmd.Driver.Link.{
  go_offline, go_online, hw_irq_enable, hw_irq_disable, reset_device, fpga_sleep, fpga_wake,
}
use p4_hmd.Driver.Drainer.{drainer_thread}

-- `started` says whether the kernel has made the thread, `ready` is the READY pin as it starts.
unfoldable pub drainer_start : Bool → Bool → Device → Bool × Device
drainer_start started ready s =
    let waiting = record s { vsync = 0; send_done = 0 } in
    if started
    then (true, drainer_thread ready (record waiting { drainer = true }))
    else (false, record waiting { drainer = false })

-- `kthread_stop` returns when the thread, woken by the two completions, is gone.
unfoldable pub drainer_stop : (Device → Device) → Device → Device
drainer_stop others s =
    let woken = record s { vsync = suc s.vsync; ready_completion = suc s.ready_completion } in
    if s.drainer then record (others woken) { drainer = false } else s

-- The sender as it is allocated, all zero, with its completions, timer, works, pins and interrupts
-- acquired; what the outside has seen is kept.
abbrev pub new_sender : Device → Device
new_sender s = record s {
  buf = [];
  buf_pos = 0;
  last_sent_flags = 0;
  device_online = false;
  enabled = false;
  probe_complete = false;
  last_reset_jiffies = 0;
  hw_vsync = false;
  vsync = 0;
  send_done = 0;
  ready_completion = 0;
  timer_armed = false;
  timer_expires = 0;
  reconnect_queued = false;
  disconnect_queued = false;
  drainer = false;
  nreset_gpio = true;
  enable_gpio = false;
  nsleep_gpio = true;
  ready_irq_on = false;
  cold_irq_on = false;
}

-- `p4_sender_probe` after the allocations; the result says whether it returns 0.
unfoldable pub p4_sender_probe :
    Clock → ℕ → ℕ → Handshake → Bool → Bool → Bool → Device → Bool × Device
p4_sender_probe clock now after h started ready ready_after s =
    let (verified, s1) = reset_device clock now after h (hw_irq_enable (new_sender s)) in
    let (running, s2) = drainer_start started ready (if verified then go_online s1 else s1) in
    if not running then (false, hw_irq_disable s2) else (
      true,
      record s2 {
        probe_complete = true;
        reconnect_queued = s2.reconnect_queued || (not s2.device_online && ready_after);
      },
    )

unfoldable pub p4_sender_remove : (Device → Device) → Device → Device
p4_sender_remove others s =
    drainer_stop others
      (record s { timer_armed = false; disconnect_queued = false; reconnect_queued = false })

-- The wait takes the drainer's signal, or times out.
unfoldable pub wait_send_done : (Device → Device) → Device → Device
wait_send_done others s =
    let woken = others (record s {
      send_done = 0;
      vsync = suc s.vsync;
      ready_completion = suc s.ready_completion;
    }) in
    record woken { send_done = 0 }

unfoldable pub p4_sender_suspend : (Device → Device) → (Device → Device) → Device → Device
p4_sender_suspend others stopping s =
    let drained = wait_send_done others (record s { enabled = false }) in
    fpga_sleep (drainer_stop stopping (go_offline (hw_irq_disable drained)))

-- A display that lost its memory gets the whole frame.
unfoldable pub refresh_if_cold : Bool → Device → Device
refresh_if_cold cold s = if cold then record s { dirty = true; force_full = true } else s

unfoldable pub p4_sender_resume :
    Clock → ℕ → ℕ → Handshake → Bool → Bool → Bool → Device → Bool × Device
p4_sender_resume clock now after h cold started ready s =
    let (verified, s1) = reset_device clock now after h (hw_irq_enable (fpga_wake s)) in
    let s2 = (if verified then refresh_if_cold cold (go_online s1) else s1) in
    let (running, s3) = drainer_start started ready s2 in
    if running then (true, record s3 { enabled = true }) else (false, hw_irq_disable s3)

unfoldable pub p4_sender_powerdown : (Device → Device) → Device → Device
p4_sender_powerdown others s =
    if s.enabled then fpga_sleep (wait_send_done others (record s { enabled = false })) else s

unfoldable pub p4_sender_powerup : Bool → Device → Device
p4_sender_powerup cold s =
    if s.enabled then s else refresh_if_cold cold (fpga_wake (record s { enabled = true }))

unfoldable pub p4_sender_enable : Device → Device
p4_sender_enable s = record s { enabled = true }

unfoldable pub p4_sender_disable : Device → Device
p4_sender_disable s = record s { enabled = false }

unfoldable pub p4_sender_signal_vsync : Bool → Device → Device
p4_sender_signal_vsync hw s = record s { hw_vsync = hw; vsync = suc s.vsync }
