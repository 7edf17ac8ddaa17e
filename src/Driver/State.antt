-- ===== src/Driver/State.antt =====
-- The state of the driver: `struct p4_device` of kmod/p4.h and the `struct p4_sender` of
-- kmod/sender.c, which point at one another, in one record. A lock is not part of it, since each
-- function of the model is one step.
use p4_hmd.Base.{ℕ, ◌+◌, ◌*◌, Bool, List, length, if◌then◌else◌}
use p4_hmd.Update.Word.{Buffer}

-- `enum p4_power_mode`
pub data PowerMode : Type 0 where
  off blank low normal : PowerMode

-- `enum p4_rotation`
pub data Rotation : Type 0 where
  rot_0 rot_90 rot_180 rot_270 : Rotation

-- The FB_BLANK_* states of `blank_state`.
pub data BlankState : Type 0 where
  unblank normal_blank vsync_suspend hsync_suspend powerdown : BlankState

-- `struct display_flags` of kmod/update.h; its reserved bits stay 0.
pub record DisplayFlags : Type 0 where
  pub low_intensity : Bool
  pub blank : Bool
  pub standby : Bool
  pub upside_down : Bool

abbrev pub bit : Bool → ℕ
bit b = if b then 1 else 0

-- `union display_flags_u`, read as a byte.
unfoldable pub flags_byte : DisplayFlags → ℕ
flags_byte f =
    bit f.low_intensity * 16 + bit f.blank * 32 + bit f.standby * 64 + bit f.upside_down * 128

pub record Device : Type 0 where
  -- struct p4_device
  pub src_buf : Buffer
  pub dst_buf_0 : Buffer
  pub dst_buf_1 : Buffer
  pub dst_buf_2 : Buffer
  pub dirty : Bool
  pub force_full : Bool
  pub display_connected : Bool
  pub display_flags : DisplayFlags
  pub target_power : PowerMode
  pub rotation : Rotation
  pub is_native : Bool
  pub user_flip : Bool
  pub blank_state : BlankState
  -- struct p4_sender: `buf` holds the first `buf_len` bytes of the send buffer
  pub buf : List ℕ
  pub buf_pos : ℕ
  pub last_sent_flags : ℕ
  pub device_online : Bool
  pub enabled : Bool
  pub probe_complete : Bool
  pub last_reset_jiffies : ℕ
  pub hw_vsync : Bool
  -- a completion is the number of its pending signals
  pub vsync : ℕ
  pub send_done : ℕ
  pub ready_completion : ℕ
  -- when the disconnect timer expires, and whether the two works are queued
  pub timer_armed : Bool
  pub timer_expires : ℕ
  pub reconnect_queued : Bool
  pub disconnect_queued : Bool
  pub drainer : Bool
  -- the output pins, and whether the READY and COLD interrupts are enabled
  pub nreset_gpio : Bool
  pub enable_gpio : Bool
  pub nsleep_gpio : Bool
  pub ready_irq_on : Bool
  pub cold_irq_on : Bool
  -- what the outside has seen: the bytes of successful transfers, resets and hotplug events
  pub spi_bytes : List ℕ
  pub resets : ℕ
  pub hotplug_events : ℕ
  -- the milliseconds slept in resets
  pub slept : ℕ

abbrev pub buf_len : Device → ℕ
buf_len s = length s.buf

-- The kernel's clock arithmetic: jiffies from milliseconds and back, and `time_before`.
pub record Clock : Type 0 where
  pub msecs_to_jiffies : ℕ → ℕ
  pub jiffies_to_msecs : ℕ → ℕ
  pub time_before : ℕ → ℕ → Bool

-- One wait for READY: the pin at the first and the second look, and whether the completion came in
-- time.
pub record Handshake : Type 0 where
  pub ready_first : Bool
  pub ready_again : Bool
  pub signalled : Bool
