-- ===== src/Examples/Inputs.antt =====
-- The inputs of the examples.
use p4_hmd.Base.{ℕ, arith, true, false, [], leb, ltb, ◌&&◌}
use p4_hmd.Base.{if◌then◌else◌}
use p4_hmd.Update.Word.{Buffer, IsBytes}
use p4_hmd.Driver.Drainer.{ChunkEnv}
use p4_hmd.Driver.State.{Device, normal, rot_0, rot_90, unblank}

abbrev pub blank_screen : Buffer
blank_screen i = 0

pub blank_screen-IsBytes : IsBytes blank_screen
blank_screen-IsBytes i = omega arith

-- Ten bytes of 7 at 3.
abbrev pub bar : Buffer
bar i = if leb 3 i && ltb i 13 then 7 else 0

pub bar-IsBytes : IsBytes bar
bar-IsBytes i = ground arith

-- A device that is online and enabled, shows the blank screen, and is to show the bar.
abbrev pub device : Device
device = record {
  src_buf = λ i. 0;
  dst_buf_0 = bar;
  dst_buf_1 = blank_screen;
  dst_buf_2 = blank_screen;
  dirty = true;
  force_full = false;
  display_connected = true;
  display_flags = record {
    low_intensity = false;
    blank = false;
    standby = false;
    upside_down = true;
  };
  target_power = normal;
  rotation = rot_0;
  is_native = true;
  user_flip = false;
  blank_state = unblank;
  buf = [];
  buf_pos = 0;
  last_sent_flags = 128;
  device_online = true;
  enabled = true;
  probe_complete = true;
  last_reset_jiffies = 0;
  hw_vsync = true;
  vsync = 0;
  send_done = 0;
  ready_completion = 0;
  timer_armed = false;
  timer_expires = 0;
  reconnect_queued = false;
  disconnect_queued = false;
  drainer = true;
  nreset_gpio = true;
  enable_gpio = true;
  nsleep_gpio = true;
  ready_irq_on = true;
  cold_irq_on = true;
  spi_bytes = [];
  resets = 1;
  hotplug_events = 0;
  slept = 60;
}

-- The same device before a full refresh to the blank screen, and when a vsync wakes it up for that.
abbrev pub refreshed : Device
refreshed = record device { dst_buf_0 = blank_screen; force_full = true }

abbrev pub awakened : Device
awakened = record refreshed { vsync = 1 }

-- The device with a frame that shows as the reference.
abbrev pub unchanged : Device
unchanged = record device { dst_buf_0 = blank_screen }

-- READY is high and each transfer succeeds.
abbrev pub good_link : ℕ → ChunkEnv
good_link k = record {
  handshake = record { ready_first = true; ready_again = true; signalled = true };
  transfer_ok = true;
  should_stop = false;
}

-- The device in rotated mode, neither flipped nor dimmed.
abbrev pub upright : Device
upright = record device {
  rotation = rot_90;
  is_native = false;
  display_flags = record {
    low_intensity = false;
    blank = false;
    standby = false;
    upside_down = false;
  };
}
