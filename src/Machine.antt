-- ===== src/Machine.antt =====
-- internal/machine: the virtual machine behind both protocol servers.
pub mod Types
pub mod Host
pub mod Boot
pub mod Power
pub mod Reset
pub mod Media
pub mod Interface
pub mod Validity
