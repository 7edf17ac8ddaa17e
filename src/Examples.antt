-- ===== src/Examples.antt =====
-- The theorems at concrete inputs: a small change of an empty screen, a packet, and a device that is
-- online, with its link and its vertical blanks; an image, turned; a plane state; a new card; the
-- patterns of the tools; a session of the calibration tool, and a run of the driver.
mod Encoder
mod Device
pub mod Inputs
pub mod Machine
pub mod Refresh
mod Rotation
mod Pipe
mod Tools
mod Glass
mod Session
mod Bench
