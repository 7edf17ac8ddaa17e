-- ===== src/Pipe/Glass.antt =====
-- From the framebuffer to the display: what `p4_update` draws, `encode_frame` encodes and the display
-- reads.
use p4_hmd.Base.{ℕ, ◌+◌, ◌-◌, ◌*◌, ◌/◌, ◌%◌, ◌<◌, ◌≡◌, sym, ◌∙◌, ap, subst, arith}
use p4_hmd.Base.{Bool, true, false, if◌then◌else◌, some, Option, List}
use p4_hmd.Base.BitAt.{bit_at}
use p4_hmd.Update.Word.{Buffer, IsBytes}
use p4_hmd.Update.Display.{shown}
use p4_hmd.Update.Receiver.{receive}
use p4_hmd.Update.Encoder.{fb_size}
use p4_hmd.Update.Encoder.Correct.{Shows}
use p4_hmd.Driver.State.{Device, bit, buf_len}
use p4_hmd.Driver.Frame.{encode_frame}
use p4_hmd.Driver.Frame.Correct.{encode_frame-FrameReady}
use p4_hmd.Rotation.Ops.Pack.{bitrev8_bit}
use p4_hmd.Rotation.Simd.{Neon}
use p4_hmd.Rotation.Scalar.Pixels.{pixel_msb, pixel_lsb}
use p4_hmd.Pipe.Clip.{Mono, Pixels, Rect}
use p4_hmd.Pipe.Clip.Bytes.{p4_process_clip-IsBytes}
use p4_hmd.Pipe.Update.{
  Framebuffer, PlaneState, process_full, update_frame, native_rotation, new_rotation,
}
use p4_hmd.Pipe.Update.Screen as Screen
use p4_hmd.Pipe.Update.Screen.{FitsMode, process_full_pixel}
use p4_hmd.Pipe.Update.Orientation.{process_full-Redrawn, update_frame_full, asked, needs_full}

-- The pixel of the glass for pixel `(x, y)` of a frame of width `w`.
abbrev pub on_glass : Bool → Buffer → ℕ → ℕ → ℕ → ℕ
on_glass is_native scr w x y =
    if is_native then pixel_msb scr 35 y x else pixel_msb scr 35 (w - 1 - x) y

-- The glass has each pixel of the frame.
abbrev pub HasFrame : Bool → Buffer → Framebuffer → Pixels → Type 0
HasFrame is_native scr fb px =
    (x y : ℕ) → x < fb.width → y < fb.height → on_glass is_native scr fb.width x y ≡ bit (px x y)

reversed_pixel :
    (scr buf : Buffer) (r c : ℕ)
    → IsBytes buf
    → r < 720
    → c < 280
    → Shows true scr buf 0 fb_size
    → pixel_msb scr 35 r c ≡ pixel_lsb buf 35 r c
unfolding shown
reversed_pixel scr buf r c h hr hc s =
    let i = r * 35 + c / 8 in
    let back : 7 - (7 - c % 8) ≡ c % 8 = omega arith in
    ap (λ (v : ℕ). bit_at v (7 - c % 8)) (s i (omega arith) (omega arith))
    ∙ bitrev8_bit (buf i) (7 - c % 8) (h i) (omega arith)
    ∙ ap (bit_at (buf i)) back

plain_pixel :
    (scr buf : Buffer) (r c : ℕ)
    → r < 720
    → c < 280
    → Shows false scr buf 0 fb_size
    → pixel_msb scr 35 r c ≡ pixel_msb buf 35 r c
unfolding shown
plain_pixel scr buf r c hr hc s =
    ap (λ (v : ℕ). bit_at v (7 - c % 8)) (s (r * 35 + c / 8) (omega arith) (omega arith))

shown-on_glass :
    (is_native : Bool) (scr buf : Buffer) (fb : Framebuffer) (x y : ℕ)
    → FitsMode is_native fb
    → IsBytes buf
    → x < fb.width
    → y < fb.height
    → Shows is_native scr buf 0 fb_size
    → on_glass is_native scr fb.width x y ≡ Screen.shown is_native buf fb.width x y
shown-on_glass true scr buf fb x y fits h hx hy s =
    reversed_pixel scr buf y x h (omega arith) (omega arith) s
shown-on_glass false scr buf fb x y fits h hx hy s =
    plain_pixel scr buf (fb.width - 1 - x) y (omega arith) (omega arith) s

-- The display reads the send buffer and then has the frame on its glass.
abbrev pub Delivered : Bool → Framebuffer → Pixels → Buffer → ℕ → Device → Type 0
Delivered is_native fb px scr flags s =
    (scr' : Buffer) × (flags' : ℕ) × (receive (buf_len s) s.buf (scr, flags) ≡ some (scr', flags'))
    × HasFrame is_native scr' fb px

module _ (mono : Mono) (neon : Neon) (have_neon may_use_simd : Bool) (px : Pixels) where
  full_frame-Delivered :
      (fb : Framebuffer) (p4 : Device) (scr : Buffer) (flags : ℕ)
      → FitsMode p4.is_native fb
      → IsBytes p4.src_buf
      → IsBytes p4.dst_buf_2
      → let s = record (process_full mono neon have_neon may_use_simd px fb p4) { dirty = true } in
        (encode_frame s).0 ≡ true → Delivered p4.is_native fb px scr flags (encode_frame s).1
  unfolding process_full
  full_frame-Delivered fb p4 scr flags fits src reference found =
      let s = record (process_full mono neon have_neon may_use_simd px fb p4) { dirty = true } in
      let (src', dst', e) = process_full-Redrawn mono neon have_neon may_use_simd px fb p4 in
      let native : s.is_native ≡ p4.is_native = ap (λ (q : Device). q.is_native) e in
      let old : s.dst_buf_2 ≡ p4.dst_buf_2 = ap (λ (q : Device). q.dst_buf_2) e in
      let drawn : IsBytes s.dst_buf_0 =
        p4_process_clip-IsBytes mono neon have_neon may_use_simd px fb.width fb.height
          (record p4 { dst_buf_0 = λ i. 0 })
          (record { x1 = 0; y1 = 0; x2 = fb.width; y2 = fb.height }) (λ i. omega arith) in
      let ready = encode_frame-FrameReady s drawn (subst IsBytes (sym old) reference) found in
      let (scr', flags', read, shows) = ready.delivers scr (λ (q : true ≡ false). cc) flags in
      let shows' = subst (λ (b : Bool). Shows b scr' s.dst_buf_0 0 fb_size) native shows in
      (
        scr',
        flags',
        read,
        λ x y hx hy.
            shown-on_glass p4.is_native scr' s.dst_buf_0 fb x y fits drawn hx hy shows'
            ∙ process_full_pixel mono neon have_neon may_use_simd px fb p4 x y fits src hx hy,
      )

  -- From the framebuffer to the glass. Where the device's mode fits its rotation, the framebuffer has the
  -- size of the mode that the plane's rotation asks for, the buffers hold bytes, and a full refresh is
  -- needed: if `encode_frame` finds the frame after `p4_update`, then the display, whatever it showed
  -- and whatever its flags were, reads the send buffer to its end, and has on its glass each pixel of
  -- the framebuffer, turned a quarter if the mode is not native.
  pub update_frame-Delivered :
      (old_fb : Option ℕ) (state : PlaneState) (clips : List Rect) (p4 : Device) (scr : Buffer)
      (flags : ℕ)
      → p4.is_native ≡ native_rotation p4.rotation
      → needs_full old_fb state p4 ≡ true
      → FitsMode (native_rotation (new_rotation state.rotation)) state.fb
      → IsBytes p4.src_buf
      → IsBytes p4.dst_buf_2
      → (encode_frame (update_frame mono neon have_neon may_use_simd px old_fb state clips p4)).0
        ≡ true
      → Delivered
          (native_rotation (new_rotation state.rotation))
          state.fb
          px
          scr
          flags
          (encode_frame (update_frame mono neon have_neon may_use_simd px old_fb state clips p4)).1
  update_frame-Delivered old_fb state clips p4 scr flags v full fits src reference found =
      let n = native_rotation (new_rotation state.rotation) in
      let e = update_frame_full mono neon have_neon may_use_simd px old_fb state clips p4 v full in
      let found' = subst (λ (q : Device). (encode_frame q).0 ≡ true) e found in
      subst (λ (q : Device). Delivered n state.fb px scr flags (encode_frame q).1) (sym e)
        (full_frame-Delivered state.fb (asked state.rotation p4) scr flags fits src reference
          found')
