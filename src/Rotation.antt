-- ===== src/Rotation.antt =====
-- The rotation of 1-bit images: kmod/rotation_ops.h, kmod/rotation.c and kmod/rotate_neon.c.
pub mod Ops
pub mod Grid
pub mod Scalar
pub mod Simd
