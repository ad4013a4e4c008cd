-- ===== src/Ipmi.antt =====
-- internal/ipmi: IPMI over LAN (RMCP and RMCP+) and the in-band VM protocol.
pub mod Types
pub mod Wire
pub mod VmProtocol
pub mod Env
pub mod Channel
pub mod Lan
pub mod User
pub mod App
pub mod Chassis
pub mod Dispatch
pub mod Session
pub mod Padding
pub mod RmcpPlus
pub mod Server
pub mod VmServer
