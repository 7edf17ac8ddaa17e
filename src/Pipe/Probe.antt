-- ===== src/Pipe/Probe.antt =====
-- `p4_probe`, `p4_remove` and `p4_shutdown` of kmod/drm_p4_main.c, and the probes they call.
pub mod Sender
pub mod Laws
use p4_hmd.Base.{ℕ, Bool, true, false, not, ◌&&◌, ◌||◌, if◌then◌else◌}
use p4_hmd.Driver.State.{Device, Clock, Handshake, normal, unblank, rot_90}
use p4_hmd.Driver.Power.{p4_set_upside_down}
use p4_hmd.Driver.Lifecycle.{p4_sender_probe, p4_sender_remove}
use p4_hmd.Driver.Vblank.{Vblank, p4_vblank_remove}

-- The device within its `struct p4_vblank`, whether the backlight is registered, and whether userspace
-- can open the device.
pub record Card : Type 0 where
  pub vblank : Vblank
  pub backlight : Bool
  pub registered : Bool

-- What the calls of the kernel answer during a probe: each says whether its call succeeds.
pub record Answers : Type 0 where
  pub dma_mask : Bool
  pub dma_coerced : Bool
  pub spi_set_up : Bool
  pub allocated : Bool
  pub upside_down : Bool
  pub sysfs_added : Bool
  pub buffers : Bool
  -- the allocations, pins and interrupts of `p4_sender_probe`, and what it takes further
  pub sender_acquired : Bool
  pub clock : Clock
  pub now : ℕ
  pub after : ℕ
  pub handshake : Handshake
  pub started : Bool
  pub ready : Bool
  pub ready_after : Bool
  -- those of `p4_vblank_probe` and `p4_backlight_probe`
  pub vblank_acquired : Bool
  pub backlight_registered : Bool
  pub mode_config_ready : Bool
  pub connector_ready : Bool
  pub pipe_ready : Bool
  pub vblank_ready : Bool
  pub drm_registered : Bool

-- A new device, which the kernel allocates all zero, with its defaults and its cleared buffers.
unfoldable pub set_defaults : Bool → Device → Device
set_defaults user_flip p4 = record p4 {
  dirty = false;
  force_full = false;
  display_connected = false;
  display_flags = record {
    low_intensity = false;
    blank = false;
    standby = false;
    upside_down = false;
  };
  blank_state = unblank;
  target_power = normal;
  rotation = rot_90;
  is_native = false;
  user_flip = user_flip;
  src_buf = λ i. 0;
  dst_buf_0 = λ i. 0;
  dst_buf_1 = λ i. 0;
  dst_buf_2 = λ i. 0;
}

unfoldable pub p4_vblank_probe : Bool → Vblank → Bool × Vblank
p4_vblank_probe acquired v = (
  acquired,
  record v {
    enabled = false;
    hw_vsync_seen = false;
    last_vsync_jiffies = 0;
    timer_on = false;
    irq_on = false;
    periods = 0;
  },
)

unfoldable pub p4_backlight_probe : Bool → Card → Bool × Card
p4_backlight_probe ok card = (ok, record card { backlight = ok })

-- The kernel takes the backlight away with the device.
unfoldable pub p4_backlight_remove : Card → Card
p4_backlight_remove card = card

abbrev pub with_device : Device → Card → Card
with_device p4 card = record card { vblank = record (card.vblank) { p4 = p4 } }

module _ (others : Device → Device) where
  -- The three labels at the end of `p4_probe`.
  unfoldable pub err_sender : Card → Card
  err_sender card = with_device (p4_sender_remove others card.vblank.p4) card

  unfoldable pub err_vblank : Card → Card
  err_vblank card = err_sender (record card { vblank = p4_vblank_remove card.vblank })

  unfoldable pub err_backlight : Card → Card
  err_backlight card = err_vblank (p4_backlight_remove card)

  -- From `drmm_mode_config_init` on.
  unfoldable pub register_card : Answers → Card → Bool × Card
  register_card a card =
      if not a.mode_config_ready
      then (false, err_backlight card)
      else (if not a.connector_ready
          then (false, err_backlight card)
          else (if not a.pipe_ready
              then (false, err_backlight card)
              else (if not a.vblank_ready
                  then (false, err_backlight card)
                  else (if not a.drm_registered then (false, err_backlight card) else (
                    true,
                    let p4 = card.vblank.p4 in
                        let p4' = (if p4.user_flip then p4_set_upside_down p4 true else p4) in
                        record (with_device p4' card) { registered = true },
                  )))))

  -- From `p4_sender_probe` on.
  unfoldable pub start_card : Answers → Card → Bool × Card
  start_card a card =
      let (probed, p4) =
        (if a.sender_acquired
          then p4_sender_probe a.clock a.now a.after a.handshake a.started a.ready a.ready_after
              card.vblank.p4
          else (false, card.vblank.p4)) in
      let card1 = with_device p4 card in
      let (vblank_ok, v) = p4_vblank_probe a.vblank_acquired card1.vblank in
      let card2 = record card1 { vblank = v } in
      let (backlight_ok, card3) = p4_backlight_probe a.backlight_registered card2 in
      if not probed
      then (false, card1)
      else (if not vblank_ok
          then (false, err_sender card2)
          else (if not backlight_ok then (false, err_vblank card3) else register_card a card3))

  -- The result says whether it returns 0.
  unfoldable pub p4_probe : Answers → Card → Bool × Card
  p4_probe a card =
      if not (a.dma_mask || a.dma_coerced)
      then (false, card)
      else (if not (a.spi_set_up && a.allocated)
          then (false, card)
          else (let card1 = with_device (set_defaults a.upside_down card.vblank.p4) card in
              if not (a.sysfs_added && a.buffers) then (false, card1) else start_card a card1))

  -- `shutdown` is what `drm_atomic_helper_shutdown` does, `vblank_off` what `drm_crtc_vblank_off` does.
  unfoldable pub p4_remove : (Vblank → Vblank) → (Vblank → Vblank) → Card → Card
  p4_remove shutdown vblank_off card =
      let unplugged = record card { registered = false } in
      let off = record unplugged { vblank = vblank_off (shutdown card.vblank) } in
      let stopped = p4_backlight_remove (with_device (p4_sender_remove others off.vblank.p4) off) in
      record stopped { vblank = p4_vblank_remove stopped.vblank }

  unfoldable pub p4_shutdown : (Vblank → Vblank) → Card → Card
  p4_shutdown shutdown card =
      let off = p4_backlight_remove (record card { vblank = shutdown card.vblank }) in
      let quiet = record off { vblank = p4_vblank_remove off.vblank } in
      with_device (p4_sender_remove others quiet.vblank.p4) quiet
