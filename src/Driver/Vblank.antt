-- ===== src/Driver/Vblank.antt =====
-- The vertical blank of kmod/vblank.c: the interrupt of the display, the backup timer, and the limit
-- on their rate. The DRM counter of vertical blanks is a number.
pub mod Laws
use p4_hmd.Base.{ℕ, suc, ◌+◌, u64, Bool, true, false, if◌then◌else◌}
use p4_hmd.Driver.State.{Device, Clock}
use p4_hmd.Driver.Lifecycle.{p4_sender_signal_vsync}

abbrev pub vsync_min_interval_ms : ℕ
vsync_min_interval_ms = 10

-- `struct p4_vblank`, with the device it points at, whether the timer runs and the interrupt is
-- enabled, how often the timer was set forward, and the DRM counter.
pub record Vblank : Type 0 where
  pub p4 : Device
  pub enabled : Bool
  pub hw_vsync_seen : Bool
  pub last_vsync_jiffies : ℕ
  pub timer_on : Bool
  pub irq_on : Bool
  pub periods : ℕ
  pub vblank_count : ℕ

module _ (clock : Clock) where
  unfoldable pub vsync_rate_limit_ok : ℕ → Vblank → Bool × Vblank
  vsync_rate_limit_ok now v =
      let min_interval = clock.msecs_to_jiffies vsync_min_interval_ms in
      if clock.time_before now (u64 (v.last_vsync_jiffies + min_interval))
      then (false, v)
      else (true, record v { last_vsync_jiffies = now })

  -- The drainer is woken and the DRM counter advanced.
  unfoldable pub handle_vblank : Bool → Vblank → Vblank
  handle_vblank hw v = record v {
    p4 = p4_sender_signal_vsync hw v.p4;
    vblank_count = suc v.vblank_count;
  }

  unfoldable pub backup_timer_fn : ℕ → Vblank → Vblank
  backup_timer_fn now v =
      let unseen = record v { hw_vsync_seen = false } in
      let (ok, limited) = vsync_rate_limit_ok now unseen in
      let v' =
        (if v.hw_vsync_seen
          then unseen
          else (if ok then handle_vblank false limited else limited)) in
      record v' { periods = suc v'.periods }

  unfoldable pub vsync_irq_handler : ℕ → Vblank → Vblank
  vsync_irq_handler now v =
      let (ok, limited) = vsync_rate_limit_ok now (record v { hw_vsync_seen = true }) in
      if ok then handle_vblank true limited else limited

unfoldable pub p4_vblank_enable : Vblank → Vblank
p4_vblank_enable v =
    if v.enabled
    then v
    else record v { enabled = true; hw_vsync_seen = false; irq_on = true; timer_on = true }

unfoldable pub p4_vblank_disable : Vblank → Vblank
p4_vblank_disable v =
    if v.enabled then record v { enabled = false; timer_on = false; irq_on = false } else v

unfoldable pub p4_vblank_remove : Vblank → Vblank
p4_vblank_remove v =
    if v.enabled then record v { enabled = false; timer_on = false; irq_on = false } else v
