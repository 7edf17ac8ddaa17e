-- ===== src/Examples/Glass.antt =====
-- A dark framebuffer on its way to the glass of a display that is used upside down.
use p4_hmd.Base.{ℕ, ◌+◌, ◌-◌, ◌*◌, ◌/◌, ◌%◌, ◌≡◌, refl, sym, ◌∙◌, ap, subst, fun_ext}
use p4_hmd.Base.{Bool, true, false, ltb, ◌&&◌, if_ind, some, []}
use p4_hmd.Update.Word.{Buffer}
use p4_hmd.Driver.State.{Device, DisplayFlags, rot_180}
use p4_hmd.Driver.Frame.{encode_frame}
use p4_hmd.Pipe.Clip.{
  Pixels, Rect, line_bytes, align_native, p4_process_clip, p4_process_clip_native,
}
use p4_hmd.Pipe.Update.{Framebuffer, PlaneState, rotate_270, process_full, update_frame}
use p4_hmd.Pipe.Update.Orientation.{asked, update_frame_full}
use p4_hmd.Pipe.Glass.{Delivered, update_frame-Delivered}
use p4_hmd.Examples.Inputs.{refreshed, bar, blank_screen, blank_screen-IsBytes}
use p4_hmd.Examples.Machine.{pairs, plain_mono, convert, line_bits, line_byte, from_bits}
use p4_hmd.Examples.Refresh
use p4_hmd.Examples.Refresh.{refreshed_with}

abbrev dark : Pixels
dark x y = false

and_false : (b : Bool) → b && false ≡ false
and_false true = refl
and_false false = refl

dark_byte : (clip : Rect) (l b : ℕ) → line_byte dark clip l b ≡ 0
dark_byte clip l b =
    let none_lit : line_bits dark clip l b ≡ (λ j. false) =
      fun_ext (λ j. and_false (ltb (8 * b + j) (clip.x2 - clip.x1))) in
    ap (from_bits 8) none_lit

dark_frame : (clip : Rect) → convert blank_screen (some 35) dark clip ≡ blank_screen
dark_frame clip = fun_ext λ i.
    if_ind (λ v. v ≡ 0) (ltb (i / 35) (clip.y2 - clip.y1) && ltb (i % 35) (line_bytes clip)) _ _
      (λ t. dark_byte clip (i / 35) (i % 35)) (λ f. refl)

abbrev tall : Framebuffer
tall = record { id = 1; width = 280; height = 720 }

abbrev overhead : PlaneState
overhead = record { fb = tall; rotation = rotate_270 }

abbrev turned_flags : DisplayFlags
turned_flags = (asked rotate_270 refreshed).display_flags

drawn_dark :
    update_frame plain_mono pairs true true dark (some 1) overhead [] refreshed
    ≡ refreshed_with turned_flags rot_180
unfolding process_full p4_process_clip p4_process_clip_native
drawn_dark =
    update_frame_full plain_mono pairs true true dark (some 1) overhead [] refreshed refl refl
    ∙ ap
        (λ (d : Buffer). record (refreshed_with turned_flags rot_180) {
          dst_buf_0 = d;
          is_native = true;
        })
        (dark_frame (align_native 280 720 (record { x1 = 0; y1 = 0; x2 = 280; y2 = 720 })))

dark_found :
    (encode_frame (update_frame plain_mono pairs true true dark (some 1) overhead [] refreshed)).0
    ≡ true
dark_found =
    subst (λ (s : Device). (encode_frame s).0 ≡ true) (sym drawn_dark)
      (Refresh.found turned_flags rot_180)

update_frame-Delivered_example :
    Delivered true tall dark bar 7
      (encode_frame (update_frame plain_mono pairs true true dark (some 1) overhead [] refreshed)).1
update_frame-Delivered_example =
    update_frame-Delivered plain_mono pairs true true dark (some 1) overhead [] refreshed bar 7 refl
      refl (refl, refl) blank_screen-IsBytes blank_screen-IsBytes dark_found
