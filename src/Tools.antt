-- ===== src/Tools.antt =====
-- src/tools.c: the generators of user ids and the string hash of the command and session tables.
pub mod Uid
pub mod Hash
pub mod Times
pub mod Tokens
