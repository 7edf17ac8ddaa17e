-- ===== src/Driver.antt =====
-- The driver of kmod around the encoder: the sender, the power states, the vertical blank and the
-- callbacks of the display pipe, over one state.
pub mod State
pub mod Power
pub mod Buffer
pub mod Frame
pub mod Link
pub mod Drainer
pub mod Lifecycle
pub mod Vblank
pub mod Dpms
