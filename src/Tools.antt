-- ===== src/Tools.antt =====
-- The user-space tools: kmod/p4_calibrate.c and kmod/p4_setmode.c, where they draw, encode, send and
-- measure.
pub mod Patterns
pub mod FillPattern
pub mod Calibrate
pub mod Spi
pub mod Stress
pub mod Speeds
pub mod Handshake
pub mod PatternTest
