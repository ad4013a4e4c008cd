-- ===== src/Qemu.antt =====
-- internal/qemu: the command line of QEMU and its process.
pub mod Args
pub mod Boot
pub mod Process
