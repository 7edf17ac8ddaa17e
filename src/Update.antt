-- ===== src/Update.antt =====
-- kmod/update.c and kmod/update.h: differential update encoding. A buffer is a function from a byte
-- offset to a byte, so that pointer arithmetic `buf + k` is a shift of its argument.
pub mod Word
pub mod Diffs
pub mod Rle
pub mod Packet
pub mod Encoder
pub mod Display
pub mod Receiver
