-- ===== src/Bmc.antt =====
-- internal/bmc: the state that both protocol servers share.
pub mod State
pub mod Slots
pub mod Users
pub mod Accounts
pub mod Config
pub mod Invariant
