-- ===== src/Pipe.antt =====
-- The display pipe and the module around it: kmod/drm_p4_main.c and kmod/drm_boilerplate.h.
pub mod Clip
pub mod Update
pub mod Connector
pub mod Probe
pub mod Glass
pub mod Run
