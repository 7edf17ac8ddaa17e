-- ===== src/Driver/Link.antt =====
-- The link to the display in kmod/sender.c: the two interrupts, the disconnect and reconnect works,
-- resets and the sleep pin. The kernel's readings of pins, completions and jiffies are arguments. A
-- function that returns 0 or an error returns true or false.
pub mod Laws
use p4_hmd.Base.{ℕ, suc, ◌+◌, ◌-◌, ◌%◌, ◌^◌, u64, Bool, true, false, not, ltb, ◌&&◌, ◌||◌, ◌==◌}
use p4_hmd.Base.{if◌then◌else◌}
use p4_hmd.Driver.State.{Device, Clock, Handshake}

abbrev pub spi_ready_timeout_ms : ℕ
spi_ready_timeout_ms = 600

abbrev pub reset_min_interval_ms : ℕ
reset_min_interval_ms = 1000

abbrev pub reset_assert_ms : ℕ
reset_assert_ms = 10

abbrev pub reset_settle_ms : ℕ
reset_settle_ms = 50

unfoldable pub go_offline : Device → Device
go_offline s = record s { device_online = false; force_full = true; send_done = suc s.send_done }

unfoldable pub go_online : Device → Device
go_online s = record s { device_online = true }

-- `schedule_work` does nothing if the work is queued.
unfoldable pub ready_irq_handler : Clock → ℕ → Bool → Device → Device
ready_irq_handler clock now ready_high s =
    if ready_high
    then record s {
      timer_armed = false;
      ready_completion = suc s.ready_completion;
      reconnect_queued = s.reconnect_queued || (not s.device_online && s.probe_complete);
    }
    else record s {
      timer_armed = true;
      timer_expires = u64 (now + clock.msecs_to_jiffies spi_ready_timeout_ms);
    }

unfoldable pub cold_irq_handler : Device → Device
cold_irq_handler s =
    if s.device_online then record s { timer_armed = false; disconnect_queued = true } else s

unfoldable pub hw_reset_device : Device → Device
hw_reset_device s = record s {
  nreset_gpio = true;
  resets = suc s.resets;
  slept = s.slept + reset_assert_ms + reset_settle_ms;
}

-- The completion is cleared unless READY is high at the first look; a wait takes the signal that it
-- was woken by.
unfoldable pub wait_for_ready : Handshake → Device → Bool × Device
wait_for_ready h s = (
  h.ready_first || (h.ready_again || h.signalled),
  record s { ready_completion = if h.ready_first then s.ready_completion else 0 },
)

unfoldable pub hw_wait_ready : Handshake → Device → Bool × Device
hw_wait_ready h s = wait_for_ready h s

unfoldable pub hw_verify_ready : Handshake → Device → Bool × Device
hw_verify_ready h s = wait_for_ready h s

unfoldable pub hw_irq_enable : Device → Device
hw_irq_enable s = record s { enable_gpio = true; ready_irq_on = true; cold_irq_on = true }

unfoldable pub hw_irq_disable : Device → Device
hw_irq_disable s = record s {
  cold_irq_on = false;
  ready_irq_on = false;
  timer_armed = false;
  disconnect_queued = false;
  enable_gpio = false;
}

-- The notification of a change of the connection.
unfoldable pub set_connected : Bool → Device → Device
set_connected connected s = record s {
  display_connected = connected;
  hotplug_events = suc s.hotplug_events;
}

unfoldable pub disconnect_work_fn : ℕ → Device → Device
disconnect_work_fn now s =
    let offline = record s {
      disconnect_queued = false;
      device_online = false;
      dirty = true;
      force_full = true;
      send_done = suc s.send_done;
    } in
    let reset = record (hw_reset_device offline) { last_reset_jiffies = now } in
    if s.display_connected then set_connected false reset else reset

unfoldable pub disconnect_timer_fn : Device → Device
disconnect_timer_fn s = record s { timer_armed = false; disconnect_queued = true }

unfoldable pub announce_online : Device → Device
announce_online s = if s.display_connected then s else set_connected true s

-- From the check of `ret` on.
unfoldable pub reconnect_after : Bool → Device → Device
reconnect_after false s = s
reconnect_after true s =
    announce_online (record s { device_online = true; dirty = true; force_full = true })

unfoldable pub reconnect_work_fn : ℕ → Handshake → Device → Device
reconnect_work_fn now h s =
    let taken = record s { reconnect_queued = false } in
    let reset = record (hw_reset_device taken) { last_reset_jiffies = now } in
    let (ready, s1) = hw_verify_ready h reset in
    if s.device_online then taken else reconnect_after ready s1

unfoldable pub fpga_sleep : Device → Device
fpga_sleep s = record s { nsleep_gpio = false }

unfoldable pub fpga_wake : Device → Device
fpga_wake s = record s { nsleep_gpio = true }

-- How long `reset_device` sleeps before the reset, at the reading `now`.
unfoldable pub reset_wait : Clock → ℕ → Device → ℕ
reset_wait clock now s =
    let min_interval = clock.msecs_to_jiffies reset_min_interval_ms in
    let elapsed = u64 (now + 2 ^ 64 - s.last_reset_jiffies) in
    if not (s.last_reset_jiffies == 0)
      && clock.time_before now (u64 (s.last_reset_jiffies + min_interval))
    then clock.jiffies_to_msecs (u64 (min_interval + 2 ^ 64 - elapsed))
    else 0

-- `now` and `after` are the jiffies at the call and after the reset.
unfoldable pub reset_device : Clock → ℕ → ℕ → Handshake → Device → Bool × Device
reset_device clock now after h s =
    let waited = record s { slept = s.slept + reset_wait clock now s } in
    let reset = record (hw_reset_device (go_offline waited)) { last_reset_jiffies = after } in
    hw_verify_ready h reset
