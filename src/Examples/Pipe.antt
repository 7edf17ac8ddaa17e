-- ===== src/Examples/Pipe.antt =====
-- The display pipe at a framebuffer whose lit pixels are those left of the diagonal, and a new card.
use p4_hmd.Base.{◌+◌, ◌-◌, ◌/◌, ◌%◌, ◌<◌, ◌≤◌, ◌≡◌, refl, arith, Bool, true, false, ltb}
use p4_hmd.Base.{◌&&◌, if◌then◌else◌, none, some, [], ◌∷◌}
use p4_hmd.Driver.State.{Device, bit}
use p4_hmd.Driver.Vblank.{Vblank}
use p4_hmd.Rotation.Scalar.Pixels.{pixel_msb, pixel_lsb}
use p4_hmd.Pipe.Clip.{
  Pixels, Rect, hw_width, align_rotated, align_native, p4_process_clip_rotated,
  p4_process_clip_native,
}
use p4_hmd.Pipe.Clip.Rotated.{within, align_rotated_bounds, p4_process_clip_rotated_pixel}
use p4_hmd.Pipe.Clip.Native.{p4_process_clip_native_pixel}
use p4_hmd.Pipe.Update.{
  Framebuffer, PlaneState, Crtc, rotate_180, process_full, update_frame, p4_update,
}
use p4_hmd.Pipe.Update.Screen.{shown, process_full_pixel}
use p4_hmd.Pipe.Update.Asked.{Decides, Reason, drawn, update_frame-drawn}
use p4_hmd.Pipe.Update.Events.{Completed, p4_update-Completed}
use p4_hmd.Pipe.Connector.{p4_atomic_check, p4_atomic_check-promised, any_active, promised}
use p4_hmd.Pipe.Probe.{Card, Answers, p4_probe, p4_remove}
use p4_hmd.Pipe.Probe.Laws.{IsStopped, Probed, p4_probe-Probed, p4_remove-IsStopped}
use p4_hmd.Examples.Inputs.{upright, blank_screen, blank_screen-IsBytes, good_link}
use p4_hmd.Examples.Machine.{pairs, plain_mono}

abbrev diagonal : Pixels
diagonal x y = ltb x y

abbrev patch : Rect
patch = record { x1 = 10; y1 = 20; x2 = 30; y2 = 40 }

align_rotated_bounds_example :
    let a = align_rotated 720 280 patch in
    (a.x1 % 8 ≡ 0)
    × (a.y1 % 8 ≡ 0)
    × (a.x2 % 8 ≡ 0)
    × (a.y2 % 8 ≡ 0)
    × (a.x2 ≤ 720)
    × (a.y2 ≤ 280)
    × (a.x1 ≤ patch.x1)
    × (a.y1 ≤ patch.y1)
    × (patch.x2 ≤ a.x2)
    × (patch.y2 ≤ a.y2)
    × (patch.x1 < a.x1 + 8)
    × (patch.y1 < a.y1 + 8)
    × (a.x2 < patch.x2 + 8)
    × (a.y2 < patch.y2 + 8)
align_rotated_bounds_example =
    align_rotated_bounds 720 280 patch (omega arith) (omega arith) (omega arith) (omega arith)
      (omega arith) (omega arith)

p4_process_clip_rotated_pixel_example :
    pixel_msb
      (p4_process_clip_rotated plain_mono pairs true true diagonal 720 280 patch
        (blank_screen, blank_screen)).1
      35
      707
      25
    ≡ (if within (align_rotated 720 280 patch) 12 25
        then bit (diagonal 12 25)
        else pixel_msb blank_screen 35 707 25)
p4_process_clip_rotated_pixel_example =
    p4_process_clip_rotated_pixel plain_mono pairs true true diagonal 720 280 patch blank_screen
      blank_screen 12 25 (omega arith) (omega arith) blank_screen-IsBytes (omega arith)
      (omega arith)

p4_process_clip_native_pixel_example :
    let a = align_native 280 720 patch in
    pixel_lsb
      (p4_process_clip_native plain_mono diagonal 280 720 patch blank_screen)
      (hw_width / 8)
      5
      4
    ≡ (if ltb 4 (a.x2 - a.x1) && ltb 5 (a.y2 - a.y1)
        then bit (diagonal (a.x1 + 4) (a.y1 + 5))
        else pixel_lsb blank_screen (hw_width / 8) 5 4)
p4_process_clip_native_pixel_example =
    p4_process_clip_native_pixel plain_mono diagonal 280 720 patch blank_screen 4 5 (omega arith)
      (omega arith) (omega arith)

abbrev screen : Framebuffer
screen = record { id = 1; width = 720; height = 280 }

process_full_pixel_example :
    shown false (process_full plain_mono pairs true true diagonal screen upright).dst_buf_0 720 5 9
    ≡ bit (diagonal 5 9)
process_full_pixel_example =
    process_full_pixel plain_mono pairs true true diagonal screen upright 5 9 (refl, refl)
      blank_screen-IsBytes (omega arith) (omega arith)

-- The picture is turned around, and the framebuffer is the old one.
abbrev around : PlaneState
around = record { fb = screen; rotation = rotate_180 }

update_frame-drawn_example :
    let p4' =
      update_frame plain_mono pairs true true diagonal (some 1) around (patch ∷ []) upright in
    (full : Bool) × Decides full (Reason (some 1) around upright)
    × (p4'
        ≡ record (drawn
            (some 1)
            around
            upright
            plain_mono
            pairs
            true
            true
            diagonal
            full
            (patch ∷ [])) { dirty = true })
    × (p4'.force_full ≡ full)
update_frame-drawn_example =
    update_frame-drawn (some 1) around upright plain_mono pairs true true diagonal (patch ∷ []) refl

abbrev flipping : Crtc
flipping = record { event = true; armed = 0; sent = 0 }

p4_update-Completed_example :
    Completed false flipping
      (p4_update plain_mono pairs true true false true
        (some diagonal)
        (some 1)
        around
        (patch ∷ [])
        (flipping, upright)).0
p4_update-Completed_example =
    p4_update-Completed plain_mono pairs true true false true (some diagonal) (some 1) around
      (patch ∷ []) flipping upright

abbrev unplugged : Device
unplugged = record upright { display_connected = false; drainer = false }

p4_atomic_check-promised_example :
    p4_atomic_check none (false ∷ true ∷ []) unplugged
    ≡ promised none (any_active (false ∷ true ∷ [])) false
p4_atomic_check-promised_example = p4_atomic_check-promised none (false ∷ true ∷ []) unplugged

abbrev quiet : Vblank
quiet = record {
  p4 = unplugged;
  enabled = false;
  hw_vsync_seen = false;
  last_vsync_jiffies = 0;
  timer_on = false;
  irq_on = false;
  periods = 0;
  vblank_count = 0;
}

abbrev new_card : Card
new_card = record { vblank = quiet; backlight = false; registered = false }

-- Everything succeeds but the last step.
abbrev late_failure : Answers
late_failure = record {
  dma_mask = false;
  dma_coerced = true;
  spi_set_up = true;
  allocated = true;
  upside_down = true;
  sysfs_added = true;
  buffers = true;
  sender_acquired = true;
  clock = record { msecs_to_jiffies = λ n. n; jiffies_to_msecs = λ n. n; time_before = ltb };
  now = 5;
  after = 65;
  handshake = (good_link 0).handshake;
  started = true;
  ready = true;
  ready_after = true;
  vblank_acquired = true;
  backlight_registered = true;
  mode_config_ready = true;
  connector_ready = true;
  pipe_ready = true;
  vblank_ready = true;
  drm_registered = false;
}

p4_probe-Probed_example :
    Probed
      (λ s. s)
      (p4_probe (λ s. s) late_failure new_card).0
      (p4_probe (λ s. s) late_failure new_card).1
p4_probe-Probed_example =
    p4_probe-Probed (λ s. s) late_failure new_card
      (record {
        thread = refl;
        timer = refl;
        irq = refl;
        closed = refl;
        idle = record { timer = refl; disconnect = refl; reconnect = refl };
      })

-- A card at work.
abbrev working : Card
working = record {
  vblank = record quiet { p4 = upright; enabled = true; timer_on = true; irq_on = true };
  backlight = true;
  registered = true;
}

p4_remove-IsStopped_example : IsStopped (λ s. s) (p4_remove (λ s. s) (λ v. v) (λ v. v) working)
p4_remove-IsStopped_example =
    p4_remove-IsStopped (λ s. s) (λ v. v) (λ v. v) working (record { timer = refl; irq = refl })
