-- ===== src/Ipmi/RmcpPlus.antt =====
-- internal/ipmi/rmcp_plus.go: RMCP+ session setup and the messages inside and outside of sessions.
pub mod Wrap
pub mod OpenSession
pub mod Rakp
pub mod Keyed
pub mod Secured
pub mod Message
