-- ===== src/Pipe/Run/Invariant.antt =====
-- What holds of the device throughout, and the small operations that keep it.
use p4_hmd.Base.{
  ℕ, zero, suc, ◌≡◌, ◌≤◌, refl, arith, Bool, true, false, if_ind, if◌then◌else◌, length, xor, List,
  [], ◌∙◌,
}
use p4_hmd.Update.Word.{Buffer, IsBytes}
use p4_hmd.Driver.State.{Device, DisplayFlags, Rotation, PowerMode, off, blank, low, normal}
use p4_hmd.Driver.Power.{
  p4_set_upside_down, apply_power_mode, p4_set_power_mode, p4_set_brightness, bad_brightness,
  effective_mode,
}
use p4_hmd.Driver.Power.Laws.{Exclusive, power_bits-Exclusive}
use p4_hmd.Driver.Buffer.{spi_buf_size}
use p4_hmd.Driver.Link.{
  ready_irq_handler, cold_irq_handler, disconnect_timer_fn, disconnect_work_fn, reconnect_work_fn,
  reconnect_after, announce_online, hw_reset_device, hw_verify_ready, wait_for_ready, set_connected,
}
use p4_hmd.Driver.Link.Laws.{LinkStep, ready_edge, cold_edge, timer_expiry, disconnect, reconnect}
use p4_hmd.Driver.Dpms.{drm_flip, bl_update, user_flip_store}
use p4_hmd.Pipe.Update.{native_rotation}

-- What the invariant reads of the device.
pub record View : Type 0 where
  pub flags : DisplayFlags
  pub is_native : Bool
  pub rotation : Rotation
  pub user_flip : Bool
  pub target_power : PowerMode
  pub online : Bool
  pub force_full : Bool
  pub buf : List ℕ
  pub buf_pos : ℕ
  pub frame : Buffer
  pub candidate : Buffer
  pub reference : Buffer

abbrev pub view : Device → View
view s = record {
  flags = s.display_flags;
  is_native = s.is_native;
  rotation = s.rotation;
  user_flip = s.user_flip;
  target_power = s.target_power;
  online = s.device_online;
  force_full = s.force_full;
  buf = s.buf;
  buf_pos = s.buf_pos;
  frame = s.dst_buf_0;
  candidate = s.dst_buf_1;
  reference = s.dst_buf_2;
}

-- The power bits are exclusive; the mode and the flip are those of the rotation; the target power is not
-- off; a device that is offline has a full refresh to come; the send buffer is within its size; and the
-- buffers hold bytes.
pub record Invariant (v : View) : Type 0 where
  pub exclusive : Exclusive v.flags
  pub mode : v.is_native ≡ native_rotation v.rotation
  pub flip : v.flags.upside_down ≡ xor (drm_flip v.rotation) v.user_flip
  pub target : bad_brightness v.target_power ≡ false
  pub refresh : v.online ≡ false → v.force_full ≡ true
  pub room : length v.buf ≤ spi_buf_size
  pub placed : v.buf_pos ≤ length v.buf
  pub frame : IsBytes v.frame
  pub candidate : IsBytes v.candidate
  pub reference : IsBytes v.reference

abbrev pub IsValid : Device → Type 0
IsValid s = Invariant (view s)

-- Setting the connection while a full refresh is due.
pub Invariant-online :
    (v : View) (online : Bool)
    → Invariant v
    → Invariant (record v { online = online; force_full = true })
Invariant-online v online h = record {
  exclusive = h.exclusive;
  mode = h.mode;
  flip = h.flip;
  target = h.target;
  refresh = λ _. refl;
  room = h.room;
  placed = h.placed;
  frame = h.frame;
  candidate = h.candidate;
  reference = h.reference;
}

-- A device that is online may have its refresh taken.
pub Invariant-full :
    (v : View) (full : Bool)
    → v.online ≡ true
    → Invariant v
    → Invariant (record v { force_full = full })
Invariant-full v full on h = record {
  exclusive = h.exclusive;
  mode = h.mode;
  flip = h.flip;
  target = h.target;
  refresh = λ off. absurd (cc);
  room = h.room;
  placed = h.placed;
  frame = h.frame;
  candidate = h.candidate;
  reference = h.reference;
}

-- The send buffer and the frames behind it.
pub Invariant-buffers :
    (v : View) (bytes : List ℕ) (buf_pos : ℕ) (candidate reference : Buffer)
    → length bytes ≤ spi_buf_size
    → buf_pos ≤ length bytes
    → IsBytes candidate
    → IsBytes reference
    → Invariant v
    → Invariant
        (record v { buf = bytes; buf_pos = buf_pos; candidate = candidate; reference = reference })
Invariant-buffers v bytes buf_pos candidate reference le at hc hr h = record {
  exclusive = h.exclusive;
  mode = h.mode;
  flip = h.flip;
  target = h.target;
  refresh = h.refresh;
  room = le;
  placed = at;
  frame = h.frame;
  candidate = hc;
  reference = hr;
}

pub Invariant-emptied : (v : View) → Invariant v → Invariant (record v { buf = []; buf_pos = 0 })
Invariant-emptied v h =
    Invariant-buffers v [] 0 v.candidate v.reference (omega arith) (omega arith) h.candidate
      h.reference h

pub Invariant-flags :
    (v : View) (f : DisplayFlags)
    → Exclusive f
    → f.upside_down ≡ v.flags.upside_down
    → Invariant v
    → Invariant (record v { flags = f })
Invariant-flags v f e same h = record {
  exclusive = e;
  mode = h.mode;
  flip = same ∙ h.flip;
  target = h.target;
  refresh = h.refresh;
  room = h.room;
  placed = h.placed;
  frame = h.frame;
  candidate = h.candidate;
  reference = h.reference;
}

Invariant-target :
    (v : View) (p : PowerMode)
    → bad_brightness p ≡ false
    → Invariant v
    → Invariant (record v { target_power = p })
Invariant-target v p e h = record {
  exclusive = h.exclusive;
  mode = h.mode;
  flip = h.flip;
  target = e;
  refresh = h.refresh;
  room = h.room;
  placed = h.placed;
  frame = h.frame;
  candidate = h.candidate;
  reference = h.reference;
}

Invariant-flip :
    (v : View) (user_flip : Bool) (f : DisplayFlags)
    → Exclusive f
    → f.upside_down ≡ xor (drm_flip v.rotation) user_flip
    → Invariant v
    → Invariant (record v { user_flip = user_flip; flags = f })
Invariant-flip v user_flip f x e h = record {
  exclusive = x;
  mode = h.mode;
  flip = e;
  target = h.target;
  refresh = h.refresh;
  room = h.room;
  placed = h.placed;
  frame = h.frame;
  candidate = h.candidate;
  reference = h.reference;
}

apply_power_mode-IsValid :
    (s : Device) (mode : PowerMode) → IsValid s → IsValid (apply_power_mode s mode)
unfolding apply_power_mode
apply_power_mode-IsValid s mode h =
    let k = power_bits-Exclusive s.display_flags.upside_down mode in
    Invariant-flags (view s) _ k.0 k.1 h

pub p4_set_power_mode-IsValid :
    (s : Device) (mode : PowerMode) → IsValid s → IsValid (p4_set_power_mode s mode)
unfolding p4_set_power_mode
p4_set_power_mode-IsValid s mode h =
    apply_power_mode-IsValid s (effective_mode s.target_power mode) h

reconnect_after-IsValid :
    (ready : Bool) (s : Device) → IsValid s → IsValid (reconnect_after ready s)
unfolding reconnect_after announce_online set_connected
reconnect_after-IsValid false s h = h
reconnect_after-IsValid true s h =
    let k = Invariant-online (view s) true h in
    if_ind IsValid s.display_connected _ _ (λ _. k) (λ _. k)

pub link-IsValid : {s t : Device} → LinkStep s t → IsValid s → IsValid t
unfolding ready_irq_handler cold_irq_handler disconnect_timer_fn disconnect_work_fn
    reconnect_work_fn hw_reset_device hw_verify_ready wait_for_ready set_connected
link-IsValid (ready_edge clock now true s) h = h
link-IsValid (ready_edge clock now false s) h = h
link-IsValid (cold_edge s) h = if_ind IsValid s.device_online _ _ (λ _. h) (λ _. h)
link-IsValid (timer_expiry s) h = h
link-IsValid (disconnect now s) h =
    let k = Invariant-online (view s) false h in
    if_ind IsValid s.display_connected _ _ (λ _. k) (λ _. k)
link-IsValid (reconnect now k s) h =
    if_ind IsValid s.device_online _ _ (λ _. h) (λ _. reconnect_after-IsValid _ _ h)

new_target-IsValid :
    (s : Device) (b : PowerMode)
    → bad_brightness b ≡ false
    → IsValid s
    → let s' = record s { target_power = b } in
      IsValid (if s.display_flags.standby then s' else apply_power_mode s' b)
new_target-IsValid s b e h =
    let s' = record s { target_power = b } in
    let k : IsValid s' = Invariant-target (view s) b e h in
    if_ind IsValid s.display_flags.standby s' (apply_power_mode s' b) (λ _. k)
      (λ _. apply_power_mode-IsValid s' b k)

p4_set_brightness-IsValid :
    (s : Device) (b : PowerMode) → IsValid s → IsValid (p4_set_brightness s b)
unfolding p4_set_brightness
p4_set_brightness-IsValid s off h = h
p4_set_brightness-IsValid s blank h = new_target-IsValid s blank refl h
p4_set_brightness-IsValid s low h = new_target-IsValid s low refl h
p4_set_brightness-IsValid s normal h = new_target-IsValid s normal refl h

pub bl_update-IsValid : (n : ℕ) (s : Device) → IsValid s → IsValid (bl_update n s)
unfolding bl_update
bl_update-IsValid zero s h = p4_set_brightness-IsValid s blank h
bl_update-IsValid (suc zero) s h = p4_set_brightness-IsValid s low h
bl_update-IsValid (suc (suc zero)) s h = p4_set_brightness-IsValid s normal h
bl_update-IsValid (suc (suc (suc n))) s h = h

pub user_flip_store-IsValid :
    (new_flip : Bool) (s : Device) → IsValid s → IsValid (user_flip_store new_flip s)
unfolding user_flip_store p4_set_upside_down
user_flip_store-IsValid new_flip s h =
    let f = record (s.display_flags) { upside_down = xor (drm_flip s.rotation) new_flip } in
    if_ind IsValid (xor s.user_flip new_flip) _ _
      (λ _. Invariant-flip (view s) new_flip f h.exclusive refl h) (λ _. h)
