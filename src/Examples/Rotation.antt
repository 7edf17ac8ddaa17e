-- ===== src/Examples/Rotation.antt =====
-- The rotation of the bar, two blocks wide.
use p4_hmd.Base.{◌+◌, ◌*◌, ◌≡◌, arith, true, inl}
use p4_hmd.Rotation.Scalar.{rotate_ccw_scalar}
use p4_hmd.Rotation.Scalar.Pixels.{
  pixel_msb, pixel_lsb, rotate_ccw_scalar_pixel, rotate_ccw_scalar_outside,
}
use p4_hmd.Rotation.Simd.{rotate_blocks}
use p4_hmd.Rotation.Simd.Equal.{rotate_blocks_simd}
use p4_hmd.Examples.Inputs.{bar, bar-IsBytes, blank_screen}
use p4_hmd.Examples.Machine.{pairs}

rotate_ccw_scalar_pixel_example :
    pixel_msb (rotate_ccw_scalar bar blank_screen 2 1 2 0 2 0 1) 1 14 3 ≡ pixel_lsb bar 2 3 1
rotate_ccw_scalar_pixel_example =
    rotate_ccw_scalar_pixel bar blank_screen 2 1 2 0 2 0 1 14 3 bar-IsBytes (omega arith)
      (omega arith) (omega arith) (omega arith) (omega arith) (omega arith) (omega arith)

rotate_ccw_scalar_outside_example :
    rotate_ccw_scalar bar blank_screen 2 3 2 1 2 0 1 (9 * 3 + 0) ≡ blank_screen (9 * 3 + 0)
rotate_ccw_scalar_outside_example =
    rotate_ccw_scalar_outside bar blank_screen 2 3 2 1 2 0 1 9 0 (omega arith) (omega arith)
      (omega arith) (omega arith) (omega arith) (inl (omega arith))

rotate_blocks_simd_example :
    rotate_blocks pairs true true bar blank_screen 1 3 1 0 1 0 3
    ≡ rotate_ccw_scalar bar blank_screen 1 3 1 0 1 0 3
rotate_blocks_simd_example = rotate_blocks_simd pairs true true bar blank_screen 1 3 1 0 1 0 3
