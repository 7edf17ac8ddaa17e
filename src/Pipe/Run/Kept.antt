-- ===== src/Pipe/Run/Kept.antt =====
-- A run of the driver keeps the invariant.
use p4_hmd.Driver.State.{Device}
use p4_hmd.Driver.Lifecycle.{p4_sender_enable, p4_sender_disable, p4_sender_signal_vsync}
use p4_hmd.Driver.Dpms.{p4_enable, p4_disable}
use p4_hmd.Rotation.Simd.{Neon}
use p4_hmd.Pipe.Clip.{Mono}
use p4_hmd.Pipe.Run.{
  Run, stay, then_do, link, vsync, round, dpms, brightness, flip, enable, disable, update, suspend,
  resume,
}
use p4_hmd.Pipe.Run.Invariant.{
  view, IsValid, Invariant-online, link-IsValid, bl_update-IsValid, user_flip_store-IsValid,
}
use p4_hmd.Pipe.Run.Round.{drainer_round-IsValid}
use p4_hmd.Pipe.Run.Lifecycle.{p4_resume-IsValid, p4_suspend-IsValid, p4_dpms_set-IsValid}
use p4_hmd.Pipe.Run.Redraw.{p4_update-IsValid}

-- However interrupts, works, rounds of the drainer and the calls of DRM, backlight and sysfs follow one
-- another, also while one of them waits for the others: if the invariant holds it holds afterwards. The
-- power bits stay exclusive, the mode and the flip those of the rotation and the user, the target power
-- never off; while the device is offline a full refresh is due; the send buffer stays within its size;
-- and the frame, the candidate and the reference hold bytes.
pub Run-IsValid :
    (mono : Mono) (neon : Neon) (s t : Device) → Run mono neon s t → IsValid s → IsValid t
unfolding p4_sender_signal_vsync p4_enable p4_sender_enable p4_disable p4_sender_disable
Run-IsValid mono neon s t (stay _) h = h
Run-IsValid mono neon s t (then_do _ u _ r q) h =
    Run-IsValid mono neon u t q (Run-IsValid mono neon s u r h)
Run-IsValid mono neon s t (link _ _ l) h = link-IsValid l h
Run-IsValid mono neon s t (vsync hw _) h = h
Run-IsValid mono neon s t (round ready env _) h = drainer_round-IsValid ready env s h
Run-IsValid mono neon s t (dpms cold others mode _ k) h =
    p4_dpms_set-IsValid cold others mode s (λ u. Run-IsValid mono neon u (others u) (k u)) h
Run-IsValid mono neon s t (brightness n _) h = bl_update-IsValid n s h
Run-IsValid mono neon s t (flip new_flip _) h = user_flip_store-IsValid new_flip s h
Run-IsValid mono neon s t (enable vblank_on _ k) h =
    Run-IsValid mono neon _ _ (k _) (Invariant-online (view s) s.device_online h)
Run-IsValid mono neon s t (disable vblank_off _ k) h =
    Run-IsValid mono neon s (vblank_off s) (k s) h
Run-IsValid mono neon s t (update hn simd get entered mapped old_fb state clips crtc _) h =
    p4_update-IsValid mono neon hn simd get entered mapped old_fb state clips crtc s h
Run-IsValid mono neon s t (suspend drm_suspend others stopping _ kd ko ks) h =
    p4_suspend-IsValid drm_suspend others stopping s
      (λ u. Run-IsValid mono neon u (drm_suspend u).1 (kd u))
      (λ u. Run-IsValid mono neon u (others u) (ko u))
      (λ u. Run-IsValid mono neon u (stopping u) (ks u)) h
Run-IsValid mono neon s t (resume drm_resume clock now after hs cold started ready _ k) h =
    p4_resume-IsValid drm_resume clock now after hs cold started ready s
      (λ u. Run-IsValid mono neon u (drm_resume u).1 (k u)) h
