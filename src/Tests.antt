-- ===== src/Tests.antt =====
-- Concrete runs: fixtures, and the theorems of the library applied to them.
pub mod Fixtures
mod Bmc
mod Wire
mod Commands
mod Sessions
mod Machines
mod Arguments
mod Redfish
mod Services
mod Events
mod Qemu
