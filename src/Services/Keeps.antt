-- ===== src/Services/Keeps.antt =====
-- The proofs that the handlers of modules/protocol/unreal32.c keep the users of each channel counted.
pub mod Rules
pub mod Channels
pub mod Users
pub mod Servers
pub mod Lines
