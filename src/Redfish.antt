-- ===== src/Redfish.antt =====
-- internal/redfish: the Redfish server.
pub mod Http
pub mod Accounts
pub mod Middleware
pub mod Events
pub mod Server
pub mod Bios
pub mod Actions
pub mod Managers
pub mod Systems
pub mod Machine
pub mod Update
